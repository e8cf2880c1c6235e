-- ===== src/Db/Administered.antt =====
-- packages/relay/src/db.ts: the users' ids grow with their rows, and where there are users there is an
-- admin, as long as nobody deletes himself.
pub mod Stays
use remote_ttys.Base.{
  ℕ, suc, ◌+◌, ◌≤◌, ◌<◌, String, Bool, true, false, Option, none, some, List, [], ◌∷◌, ◌++◌, any,
  All, All-imp, ap, length, ltb, eqb, ◌==◌, ◌≡◌, refl, ◌∙◌, subst, sym, inl, inr, Bool-cases,
  Option-cases, arith, eq_iff, if◌then◌else◌,
}
use remote_ttys.Db.Rows.{Preferences, UserRow, Db, select_first, delete_where, update_where}
use remote_ttys.Db.Users.{
  get_user, create_user, delete_user, delete_user_rows, update_password, set_user_preferences,
  has_users,
}

abbrev pub is_admin : UserRow → Bool
is_admin u = u.role == "admin"

-- Each id is at least `lo` and more than the one before.
abbrev pub Ascend : ℕ → List UserRow → Type 0
Ascend lo [] = Unit
Ascend lo (u ∷ us) = (lo ≤ u.id) × Ascend (suc u.id) us

abbrev pub IsBelow : ℕ → UserRow → Type 0
IsBelow n u = u.id < n

pub record IsAdministered (d : Db) : Type 0 where
  pub ascending : Ascend 0 d.users
  pub below : All (IsBelow d.next_user) d.users
  pub admin : has_users d ≡ true → any is_admin d.users ≡ true

Ascend-weaken : (lo hi : ℕ) (us : List UserRow) → lo ≤ hi → Ascend hi us → Ascend lo us
Ascend-weaken lo hi [] h a = tt
Ascend-weaken lo hi (u ∷ us) h a = (omega (arith, a.0), a.1)

pub Ascend-append :
    (lo : ℕ) (us : List UserRow) (u : UserRow)
    → lo ≤ u.id
    → All (IsBelow u.id) us
    → Ascend lo us
    → Ascend lo (us ++ u ∷ [])
Ascend-append lo [] u h below a = (h, tt)
Ascend-append lo (w ∷ us) u h below a = (a.0, Ascend-append (suc w.id) us u below.0 below.1 a.1)

pub Ascend-delete_where :
    (p : UserRow → Bool) (lo : ℕ) (us : List UserRow) → Ascend lo us → Ascend lo (delete_where p us)
unfolding delete_where
Ascend-delete_where p lo [] a = tt
Ascend-delete_where p lo (u ∷ us) a = elim (Bool-cases (p u)) [
  | inl gone ↦
      rw (gone, delete_where)
        (Ascend-delete_where p lo us (Ascend-weaken lo (suc u.id) us (omega (arith, a.0)) a.1))
  | inr kept ↦ rw (kept, delete_where) (a.0, Ascend-delete_where p (suc u.id) us a.1)
]

module _ {A : Type 0} where
  pub All-delete_where :
      (P : A → Type 0) (p : A → Bool) (xs : List A) → All P xs → All P (delete_where p xs)
  unfolding delete_where
  All-delete_where P p [] h = tt
  All-delete_where P p (x ∷ xs) h = elim (Bool-cases (p x)) [
    | inl gone ↦ rw (gone, delete_where) (All-delete_where P p xs h.1)
    | inr kept ↦ rw (kept, delete_where) (h.0, All-delete_where P p xs h.1)
  ]

  pub All-select_first :
      (P : A → Type 0) (p : A → Bool) (xs : List A) (x : A)
      → select_first p xs ≡ some x
      → All P xs
      → P x
  unfolding select_first
  All-select_first P p [] x found h = absurd cc
  All-select_first P p (y ∷ xs) x found h = elim (Bool-cases (p y)) [
    | inl hit ↦
        let it : some y ≡ some x = rw (hit, select_first) at found in
        let same : y ≡ x = cc in subst P same h.0
    | inr miss ↦ All-select_first P p xs x (rw (miss, select_first) at found) h.1
  ]

  pub select_first-hit :
      (p : A → Bool) (xs : List A) (x : A) → select_first p xs ≡ some x → p x ≡ true
  unfolding select_first
  select_first-hit p [] x found = absurd cc
  select_first-hit p (y ∷ xs) x found = elim (Bool-cases (p y)) [
    | inl hit ↦ ground arith
    | inr miss ↦ ground (arith, select_first-hit p xs x)
  ]

  pub any-last : (p : A → Bool) (xs : List A) (x : A) → p x ≡ true → any p (xs ++ x ∷ []) ≡ true
  any-last p [] x h = ground arith
  any-last p (y ∷ xs) x h = ground (arith, any-last p xs x)

  pub any-append : (p : A → Bool) (xs ys : List A) → any p xs ≡ true → any p (xs ++ ys) ≡ true
  any-append p [] ys h = absurd cc
  any-append p (x ∷ xs) ys h = ground (arith, any-append p xs ys)

  -- A row that is found and not deleted still passes its test.
  pub any-delete_where :
      (p q d : A → Bool) (xs : List A) (x : A)
      → select_first q xs ≡ some x
      → p x ≡ true
      → d x ≡ false
      → any p (delete_where d xs) ≡ true
  unfolding select_first delete_where
  any-delete_where p q d [] x found good kept = absurd cc
  any-delete_where p q d (y ∷ xs) x found good kept = ground (arith, any-delete_where p q d xs x)

  pub length-any : (p : A → Bool) (xs : List A) → any p xs ≡ true → ltb 0 (length xs) ≡ true
  length-any p [] h = absurd cc
  length-any p (x ∷ xs) h = ground arith

module _ (p : UserRow → Bool) (f : UserRow → UserRow) (keeps_id : (u : UserRow) → (f u).id ≡ u.id)
    (keeps_role : (u : UserRow) → (f u).role ≡ u.role) where
  pub Ascend-update_where :
      (lo : ℕ) (us : List UserRow) → Ascend lo us → Ascend lo (update_where p f us)
  unfolding update_where
  Ascend-update_where lo [] a = tt
  Ascend-update_where lo (u ∷ us) a = elim (Bool-cases (p u)) [
    | inl hit ↦
        rw (hit, update_where)
          (omega (arith, a.0, keeps_id u), rw (keeps_id u) (Ascend-update_where (suc u.id) us a.1))
    | inr miss ↦ rw (miss, update_where) (a.0, Ascend-update_where (suc u.id) us a.1)
  ]

  pub IsBelow-update_where :
      (n : ℕ) (us : List UserRow) → All (IsBelow n) us → All (IsBelow n) (update_where p f us)
  unfolding update_where
  IsBelow-update_where n [] h = tt
  IsBelow-update_where n (u ∷ us) h = elim (Bool-cases (p u)) [
    | inl hit ↦
        rw (hit, update_where) (omega (arith, h.0, keeps_id u), IsBelow-update_where n us h.1)
    | inr miss ↦ rw (miss, update_where) (h.0, IsBelow-update_where n us h.1)
  ]

  pub any-update_where : (us : List UserRow) → any is_admin (update_where p f us) ≡ any is_admin us
  unfolding update_where
  any-update_where [] = refl
  any-update_where (u ∷ us) = ground (arith, any-update_where us, keeps_role u)

  pub length-update_where : (us : List UserRow) → length (update_where p f us) ≡ length us
  unfolding update_where
  length-update_where [] = refl
  length-update_where (u ∷ us) = ground (arith, length-update_where us)

Ascend-All : (lo : ℕ) (us : List UserRow) → Ascend lo us → All (λ (w : UserRow). lo ≤ w.id) us
Ascend-All lo [] a = tt
Ascend-All lo (u ∷ us) a = (
  a.0,
  All-imp (λ w. suc u.id ≤ w.id) (λ w. lo ≤ w.id) us (λ w b. omega (arith, b, a.0))
      (Ascend-All (suc u.id) us a.1),
)

select_first-head :
    (p : UserRow → Bool) (y x : UserRow) (xs : List UserRow)
    → p y ≡ true
    → select_first p (y ∷ xs) ≡ some x
    → y ≡ x
unfolding select_first
select_first-head p y x xs hit found =
    let it : some y ≡ some x = rw (hit, select_first) at found in cc

select_first-tail :
    (p : UserRow → Bool) (y x : UserRow) (xs : List UserRow)
    → p y ≡ false
    → select_first p (y ∷ xs) ≡ some x
    → select_first p xs ≡ some x
unfolding select_first
select_first-tail p y x xs miss found = rw (miss, select_first) at found

-- A row that is found is known by its id.
pub select_first-id :
    (p q : UserRow → Bool) (lo : ℕ) (us : List UserRow) (x y : UserRow)
    → Ascend lo us
    → select_first p us ≡ some x
    → select_first q us ≡ some y
    → x.id ≡ y.id
    → x ≡ y
unfolding select_first
select_first-id p q lo [] x y a fx fy same = absurd cc
select_first-id p q lo (u ∷ us) x y a fx fy same =
    let later = Ascend-All (suc u.id) us a.1 in
    elim (Bool-cases (p u)) [
      | inl px ↦ elim (Bool-cases (q u)) [
        | inl qy ↦ sym (select_first-head p u x us px fx) ∙ select_first-head q u y us qy fy
        | inr ny ↦
            let ux = select_first-head p u x us px fx in
            let above : suc u.id ≤ y.id =
              All-select_first (λ w. suc u.id ≤ w.id) q us y (select_first-tail q u y us ny fy)
                later in
            absurd (omega (arith, above, same, ap (λ (w : UserRow). w.id) ux))
      ]
      | inr nx ↦ elim (Bool-cases (q u)) [
        | inl qy ↦
            let uy = select_first-head q u y us qy fy in
            let above : suc u.id ≤ x.id =
              All-select_first (λ w. suc u.id ≤ w.id) p us x (select_first-tail p u x us nx fx)
                later in
            absurd (omega (arith, above, same, ap (λ (w : UserRow). w.id) uy))
        | inr ny ↦
            select_first-id p q (suc u.id) us x y a.1 (select_first-tail p u x us nx fx)
              (select_first-tail q u y us ny fy) same
      ]
    ]
