-- ===== src/Auth/Revocation.antt =====
-- What a web token and an agent's token are good for, and what takes that away.
use remote_ttys.Base.{
  ℕ, ◌+◌, ◌≤◌, String, Bool, true, false, none, some, List, [], ◌∷◌, ◌≡◌, refl, ◌∙◌, inl, inr,
  Bool-cases, arith, eqb, ◌==◌, if◌then◌else◌,
}
use remote_ttys.Db.{
  Db, UserRow, TokenRow, select_first, update_where, delete_where, get_user, update_password,
  get_agent_token, delete_agent_token, set_agent_token_enabled, has_agent_tokens,
}
use remote_ttys.Db.Administered.{select_first-hit}
use remote_ttys.Auth.{
  accept_row, verify_agent_token, lifetime, Jwt, claims_of, is_stale, check_claims, generate_jwt,
  verify_jwt,
}

module _ {A : Type 0} (p : A → Bool) where
  select_first-delete_where : (xs : List A) → select_first p (delete_where p xs) ≡ none
  unfolding select_first delete_where
  select_first-delete_where [] = refl
  select_first-delete_where (x ∷ xs) = ground (arith, select_first-delete_where xs)

  -- An update that keeps the test keeps which row is the first.
  select_first-update_where :
      (q : A → Bool) (f : A → A) (keeps : (x : A) → p (f x) ≡ p x) (xs : List A) (x : A)
      → select_first p xs ≡ some x
      → select_first p (update_where q f xs) ≡ some (if q x then f x else x)
  unfolding select_first update_where
  select_first-update_where q f keeps [] x found = absurd cc
  select_first-update_where q f keeps (y ∷ xs) x found = elim (Bool-cases (p y)) [
    | inl hit ↦ elim (Bool-cases (q y)) [ inl t ↦ ground (arith, keeps y) | inr n ↦ ground arith ]
    | inr miss ↦ ground (arith, keeps y, select_first-update_where q f keeps xs x)
  ]

-- A token's hash that is not in the table.
verify_missing :
    (hash_token : String → String) (token : String) (db : Db)
    → get_agent_token (hash_token token) db ≡ none
    → verify_agent_token hash_token token db ≡ none
unfolding verify_agent_token
verify_missing hash_token token db gone = elim (Bool-cases (has_agent_tokens db)) [
  | inl some_ ↦ rw (some_, verify_agent_token) (rw gone refl)
  | inr none_ ↦ rw (none_, verify_agent_token) refl
]

verify_refused :
    (hash_token : String → String) (token : String) (row : TokenRow) (db : Db)
    → get_agent_token (hash_token token) db ≡ some row
    → eqb row.enabled 0 ≡ true
    → verify_agent_token hash_token token db ≡ none
unfolding verify_agent_token accept_row
verify_refused hash_token token row db found off = elim (Bool-cases (has_agent_tokens db)) [
  | inl some_ ↦ rw (some_, verify_agent_token) (rw found (rw (off, accept_row) refl))
  | inr none_ ↦ rw (none_, verify_agent_token) refl
]

-- A token that was deleted is valid no more.
pub verify_agent_token-delete_agent_token :
    (hash_token : String → String) (token : String) (db : Db)
    → verify_agent_token hash_token token (delete_agent_token (hash_token token) db).1 ≡ none
unfolding delete_agent_token get_agent_token
verify_agent_token-delete_agent_token hash_token token db =
    verify_missing hash_token token _
      (select_first-delete_where (λ (t : TokenRow). t.token == hash_token token) db.agent_tokens)

-- A token whose row is disabled is valid no more; the row keeps its label and its owner.
pub verify_agent_token-set_agent_token_enabled :
    (hash_token : String → String) (token : String) (row : TokenRow) (db : Db)
    → get_agent_token (hash_token token) db ≡ some row
    → verify_agent_token hash_token token (set_agent_token_enabled row.id false db).1 ≡ none
unfolding set_agent_token_enabled get_agent_token
verify_agent_token-set_agent_token_enabled hash_token token row db found =
    let now =
      select_first-update_where (λ (t : TokenRow). t.token == hash_token token)
        (λ t. eqb t.id row.id) (λ t. record t { enabled = 0 }) (λ t. refl) db.agent_tokens row
        found in
    let same : eqb row.id row.id ≡ true = ground arith in
    verify_refused hash_token token (record row { enabled = 0 }) _ (now ∙ rw same refl) refl

-- A password change of any user keeps every user, and moves the version of that user's tokens on.
get_user-update_password :
    (username changed hash : String) (user : UserRow) (db : Db)
    → get_user username db ≡ some user
    → (user' : UserRow) × (get_user username (update_password changed hash db).1 ≡ some user')
      × (user'.id ≡ user.id)
      × (user'.role ≡ user.role)
      × (user'.token_version
          ≡ (if user.username == changed then user.token_version + 1 else user.token_version))
unfolding get_user update_password
get_user-update_password username changed hash user db found =
    let now =
      select_first-update_where (λ (u : UserRow). u.username == username)
        (λ u. u.username == changed)
        (λ u. record u { password = hash; token_version = u.token_version + 1 }) (λ u. refl)
        db.users user found in
    elim (Bool-cases (user.username == changed)) [
      | inl t ↦ (
        record user { password = hash; token_version = user.token_version + 1 },
        now ∙ rw t refl,
        refl,
        refl,
        ground arith,
      )
      | inr f ↦ (user, now ∙ rw f refl, refl, refl, ground arith)
    ]

-- Password changes, of whichever users, in order: who, and the new hash.
unfoldable pub changes : List (String × String) → Db → Db
changes [] db = db
changes ((username, hash) ∷ cs) db = changes cs (update_password username hash db).1

version-changes :
    (cs : List (String × String)) (username : String) (user : UserRow) (db : Db)
    → get_user username db ≡ some user
    → (user' : UserRow) × (get_user username (changes cs db) ≡ some user')
      × (user.token_version ≤ user'.token_version)
unfolding changes
version-changes [] username user db found = (user, found, omega arith)
version-changes ((changed, hash) ∷ cs) username user db found =
    let (mid, there, same_id, same_role, version) =
      get_user-update_password username changed hash user db found in
    let (last, at, more) = version-changes cs username mid _ there in (last, at, ground arith)

get_user-username :
    (username : String) (user : UserRow) (db : Db)
    → get_user username db ≡ some user
    → (user.username == username) ≡ true
unfolding get_user
get_user-username username user db found =
    select_first-hit (λ (u : UserRow). u.username == username) db.users user found

check_fresh :
    (username : String) (is_text : Bool) (user : UserRow) (db : Db)
    → get_user username db ≡ some user
    → check_claims (claims_of username is_text db) db
      ≡ some
          (record { username = username; is_text = is_text; role = user.role; user_id = user.id })
unfolding check_claims claims_of is_stale
check_fresh username is_text user db found =
    let same : eqb user.token_version user.token_version ≡ true = ground arith in
    rw (found, check_claims) (rw (found, is_stale) (rw (same, is_stale) refl))

check_stale :
    (username : String) (is_text : Bool) (user user' : UserRow) (db db' : Db)
    → get_user username db ≡ some user
    → get_user username db' ≡ some user'
    → eqb user.token_version user'.token_version ≡ false
    → check_claims (claims_of username is_text db) db' ≡ none
unfolding check_claims claims_of is_stale
check_stale username is_text user user' db db' found found' differ =
    rw (found', check_claims) (rw (found, is_stale) (rw (differ, is_stale) refl))

module _ (jwt : Jwt) (secret : String) (issued now : ℕ) (after : issued ≤ now)
    (soon : now + 1 ≤ issued + lifetime) where
  open jwt use {sign, verify, verify-sign}

  verify_issued :
      (username : String) (is_text : Bool) (db db' : Db)
      → verify_jwt jwt secret now (generate_jwt jwt secret issued username is_text db) db'
        ≡ check_claims (claims_of username is_text db) db'
  unfolding verify_jwt generate_jwt
  verify_issued username is_text db db' =
      rw (verify_jwt, verify-sign secret (claims_of username is_text db) issued now after soon) refl

  -- Within its lifetime, in the database that it was issued over, the token of a user names him, as a text
  -- or as it was given, his id and his role.
  pub verify_jwt-generate_jwt :
      (username : String) (is_text : Bool) (user : UserRow) (db : Db)
      → get_user username db ≡ some user
      → verify_jwt jwt secret now (generate_jwt jwt secret issued username is_text db) db
        ≡ some
            (record { username = username; is_text = is_text; role = user.role; user_id = user.id })
  verify_jwt-generate_jwt username is_text user db found =
      verify_issued username is_text db db ∙ check_fresh username is_text user db found

  -- A token that was issued to a user before his password changed is refused within its lifetime,
  -- whatever passwords change afterwards.
  pub verify_jwt-changes :
      (username : String) (is_text : Bool) (hash : String) (cs : List (String × String))
      (user : UserRow) (db : Db)
      → get_user username db ≡ some user
      → verify_jwt jwt secret now
          (generate_jwt jwt secret issued username is_text db)
          (changes ((username, hash) ∷ cs) db)
        ≡ none
  unfolding changes
  verify_jwt-changes username is_text hash cs user db found =
      let (mid, there, same_id, same_role, version) =
        get_user-update_password username username hash user db found in
      let (last, at, more) = version-changes cs username mid _ there in
      let self = get_user-username username user db found in
      let stale : eqb user.token_version last.token_version ≡ false = ground arith in
      verify_issued username is_text db _
      ∙ check_stale username is_text user last db _ found at stale
