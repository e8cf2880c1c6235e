-- ===== src/Db/Users.antt =====
-- packages/relay/src/db.ts: the statements on users.
use remote_ttys.Base.{
  ℕ, ◌+◌, String, Bool, Option, none, some, List, [], ◌∷◌, ◌++◌, map, any, length, ltb, eqb, ◌==◌,
  has, if◌then◌else◌,
}
use remote_ttys.Db.Rows.{
  Preferences, no_preferences, UserRow, TokenRow, AgentRow, Db, select_first, select_all,
  delete_where, update_where, owned_by,
}

unfoldable pub get_user : String → Db → Option UserRow
unfolding select_first
get_user username db = select_first (λ (u : UserRow). u.username == username) db.users

-- `hash` is bcrypt's hash of the password.
unfoldable pub create_user : String → String → String → String → Db → Option Db
create_user datetime username hash role db =
    if any (λ (u : UserRow). u.username == username) db.users
    then none
    else some (record db {
      users =
          db.users
          ++ record {
            id = db.next_user;
            username = username;
            password = hash;
            role = role;
            token_version = 0;
            preferences = no_preferences;
            created_at = datetime;
          }
            ∷ [];
      next_user = db.next_user + 1;
    })

abbrev pub tokens_of : ℕ → List TokenRow → List String
tokens_of user rows =
    map (λ (t : TokenRow). t.token) (select_all (λ (t : TokenRow). owned_by user t.user_id) rows)

-- The transaction of `deleteUser`: the agents of the tokens, the tokens, the user.
unfoldable pub delete_user_rows : UserRow → List String → Db → Db
unfolding delete_where
delete_user_rows user hashes db = record db {
  agents = delete_where (λ (a : AgentRow). has a.token hashes) db.agents;
  agent_tokens = delete_where (λ (t : TokenRow). owned_by user.id t.user_id) db.agent_tokens;
  users = delete_where (λ (u : UserRow). eqb u.id user.id) db.users;
}

-- `none` is `deleted: false`; else the user's id and the hashes of his tokens.
pub record DeletedUser : Type 0 where
  pub user_id : ℕ
  pub token_hashes : List String

unfoldable pub delete_user : String → Db → Option DeletedUser × Db
unfolding get_user delete_user_rows select_all
delete_user username db = elim (get_user username db) [
  | none ↦ (none, db)
  | some user ↦
      let hashes = tokens_of user.id db.agent_tokens in
      (some (record { user_id = user.id; token_hashes = hashes }), delete_user_rows user hashes db)
]

unfoldable pub update_password : String → String → Db → Bool × Db
unfolding update_where
update_password username hash db = (
  any (λ (u : UserRow). u.username == username) db.users,
  record db {
    users =
        update_where (λ (u : UserRow). u.username == username)
          (λ u. record u { password = hash; token_version = u.token_version + 1 }) db.users;
  },
)

unfoldable pub get_token_version : String → Db → Option ℕ
get_token_version username db = elim (get_user username db) [
  | none ↦ none
  | some user ↦ some user.token_version
]

-- The columns that `listUsers` selects.
pub record ListedUser : Type 0 where
  pub id : ℕ
  pub username : String
  pub role : String
  pub created_at : String

-- The ids grow with the rowids.
unfoldable pub list_users : Db → List ListedUser
list_users db =
    map
      (λ (u : UserRow). record {
        id = u.id;
        username = u.username;
        role = u.role;
        created_at = u.created_at;
      })
      db.users

abbrev pub has_users : Db → Bool
has_users db = ltb 0 (length db.users)

-- A user who is not there has no preferences either.
unfoldable pub get_user_preferences : String → Db → Preferences
get_user_preferences username db = elim (get_user username db) [
  | none ↦ no_preferences
  | some user ↦ user.preferences
]

unfoldable pub set_user_preferences : String → Preferences → Db → Bool × Db
unfolding update_where
set_user_preferences username prefs db = (
  any (λ (u : UserRow). u.username == username) db.users,
  record db {
    users =
        update_where (λ (u : UserRow). u.username == username)
          (λ u. record u { preferences = prefs }) db.users;
  },
)
