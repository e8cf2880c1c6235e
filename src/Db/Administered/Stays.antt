-- ===== src/Db/Administered/Stays.antt =====
-- packages/relay/src/db.ts: what the statements on users do to the users as a whole.
use remote_ttys.Base.{
  ◌+◌, String, Bool, true, false, none, some, [], ◌∷◌, ◌++◌, any, All-append, All-imp,
  length-append, eqb, ◌==◌, ◌≡◌, refl, subst, ap, inl, inr, Bool-cases, Option-cases, arith, eq_iff,
}
use remote_ttys.Db.Rows.{Preferences, no_preferences, UserRow, Db, delete_where, update_where}
use remote_ttys.Db.Users.{
  tokens_of, get_user, create_user, delete_user, delete_user_rows, update_password,
  set_user_preferences, has_users,
}
use remote_ttys.Db.Administered.{
  is_admin, IsBelow, IsAdministered, Ascend-append, Ascend-delete_where, All-delete_where,
  any-append, any-last, select_first-id, select_first-hit, any-delete_where, length-any,
  Ascend-update_where, IsBelow-update_where, any-update_where, length-update_where,
}

-- What becomes of the users: they stay administered, and there stay to be some.
pub record Stays (d d' : Db) : Type 0 where
  pub administered : IsAdministered d → IsAdministered d'
  pub still_set_up : IsAdministered d → has_users d ≡ true → has_users d' ≡ true

pub Stays-same : (d d' : Db) → d'.users ≡ d.users → d'.next_user ≡ d.next_user → Stays d d'
Stays-same d d' us n = record {
  administered = λ h. record {
    ascending = rw us h.ascending;
    below = rw us (rw n h.below);
    admin = rw us h.admin;
  };
  still_set_up = λ h some_. rw us some_;
}

pub Stays-trans : (d d' d'' : Db) → Stays d d' → Stays d' d'' → Stays d d''
Stays-trans d d' d'' h k = record {
  administered = λ a. k.administered (h.administered a);
  still_set_up = λ a some_. k.still_set_up (h.administered a) (h.still_set_up a some_);
}

update_where-Stays :
    (p : UserRow → Bool) (f : UserRow → UserRow) (keeps_id : (u : UserRow) → (f u).id ≡ u.id)
    (keeps_role : (u : UserRow) → (f u).role ≡ u.role) (d : Db)
    → Stays d (record d { users = update_where p f d.users })
update_where-Stays p f keeps_id keeps_role d = record {
  administered = λ h. record {
    ascending = Ascend-update_where p f keeps_id keeps_role 0 d.users h.ascending;
    below = IsBelow-update_where p f keeps_id keeps_role d.next_user d.users h.below;
    admin =
        rw
          (
            length-update_where p f keeps_id keeps_role d.users,
            any-update_where p f keeps_id keeps_role d.users,
          )
          h.admin;
  };
  still_set_up = λ h some_. rw (length-update_where p f keeps_id keeps_role d.users) some_;
}

pub update_password-Stays :
    (username hash : String) (d : Db) → Stays d (update_password username hash d).1
unfolding update_password
update_password-Stays username hash d = update_where-Stays _ _ (λ u. refl) (λ u. refl) d

pub set_user_preferences-Stays :
    (username : String) (prefs : Preferences) (d : Db)
    → Stays d (set_user_preferences username prefs d).1
unfolding set_user_preferences
set_user_preferences-Stays username prefs d = update_where-Stays _ _ (λ u. refl) (λ u. refl) d

append-Stays :
    (u : UserRow) (d : Db)
    → u.id ≡ d.next_user
    → (has_users d ≡ false → is_admin u ≡ true)
    → Stays d (record d { users = d.users ++ u ∷ []; next_user = d.next_user + 1 })
append-Stays u d fresh first = record {
  administered = λ h. record {
    ascending = Ascend-append 0 d.users u (omega arith) (rw fresh h.below) h.ascending;
    below =
        All-append (IsBelow (d.next_user + 1)) d.users (u ∷ [])
          (All-imp (IsBelow d.next_user) (IsBelow (d.next_user + 1)) d.users
            (λ w b. omega (arith, b)) h.below)
          (omega (arith, fresh), tt);
    admin = λ some_. elim (Bool-cases (has_users d)) [
      | inl before ↦ any-append is_admin d.users (u ∷ []) (h.admin before)
      | inr empty ↦ any-last is_admin d.users u (first empty)
    ];
  };
  still_set_up = λ h some_. ground (arith, length-append d.users (u ∷ []));
}

-- Whoever there is to create the first user makes him an admin.
pub create_user-Stays :
    (datetime username hash role : String) (d d' : Db)
    → (has_users d ≡ false → (role == "admin") ≡ true)
    → create_user datetime username hash role d ≡ some d'
    → Stays d d'
unfolding create_user
create_user-Stays datetime username hash role d d' first made =
    elim (Bool-cases (any (λ (u : UserRow). u.username == username) d.users)) [
      | inl taken ↦ let refused : none ≡ some d' = rw (taken, create_user) at made in absurd cc
      | inr free ↦
          let row : UserRow = record {
            id = d.next_user;
            username = username;
            password = hash;
            role = role;
            token_version = 0;
            preferences = no_preferences;
            created_at = datetime;
          } in
          let it : some (record d { users = d.users ++ row ∷ []; next_user = d.next_user + 1 })
              ≡ some d' =
            rw (free, create_user) at made in
          let same : record d { users = d.users ++ row ∷ []; next_user = d.next_user + 1 } ≡ d' =
            cc in
          subst (λ x. Stays d x) same (append-Stays row d refl first)
    ]

-- Who deletes another user is there after it, and so is an admin, if he is one.
pub delete_user-Stays :
    (target username : String) (row : UserRow) (d : Db)
    → get_user username d ≡ some row
    → is_admin row ≡ true
    → (target == username) ≡ false
    → Stays d (delete_user target d).1
unfolding delete_user get_user delete_user_rows
delete_user-Stays target username row d found good other = elim (Option-cases (get_user target d)) [
  | inl missing ↦ rw (missing, delete_user) (Stays-same d d refl refl)
  | inr (gone, there) ↦ rw (there, delete_user) (delete_row gone there)
]
  where
    -- The two have different names, so they are two rows, with two ids.
    apart :
        (gone : UserRow)
        → get_user target d ≡ some gone
        → IsAdministered d
        → eqb row.id gone.id ≡ false
    apart gone there h = elim (Bool-cases (eqb row.id gone.id)) [
      | inr differ ↦ differ
      | inl equal ↦
          let same =
            select_first-id (λ (u : UserRow). u.username == username)
              (λ (u : UserRow). u.username == target) 0 d.users row gone h.ascending found there
              (ground arith) in
          let hit = select_first-hit (λ (u : UserRow). u.username == username) d.users row found in
          let hit' = select_first-hit (λ (u : UserRow). u.username == target) d.users gone there in
          absurd (
            ground (
              arith,
              ap (λ (u : UserRow). u.username) same,
              hit,
              hit',
              eq_iff row.username username,
              eq_iff gone.username target,
              eq_iff target username,
            ))
    ]

    delete_row :
        (gone : UserRow)
        → get_user target d ≡ some gone
        → Stays d (delete_user_rows gone (tokens_of gone.id d.agent_tokens) d)
    delete_row gone there =
        let left : IsAdministered d
            → any is_admin (delete_where (λ (u : UserRow). eqb u.id gone.id) d.users) ≡ true =
          λ h.
            any-delete_where is_admin (λ (u : UserRow). u.username == username)
              (λ u. eqb u.id gone.id) d.users row found good (apart gone there h) in
        record {
          administered = λ h. record {
            ascending =
                Ascend-delete_where (λ (u : UserRow). eqb u.id gone.id) 0 d.users h.ascending;
            below =
                All-delete_where (IsBelow d.next_user) (λ (u : UserRow). eqb u.id gone.id) d.users
                  h.below;
            admin = λ some_. left h;
          };
          still_set_up = λ h some_. length-any is_admin _ (left h);
        }
