-- ===== src/Db/Tokens.antt =====
-- packages/relay/src/db.ts: the statements on the tokens of agents.
use remote_ttys.Base.{
  ℕ, ◌+◌, String, Bool, ◌&&◌, Option, none, some, List, [], ◌∷◌, ◌++◌, any, length, ltb, eqb, ◌==◌,
  if◌then◌else◌,
}
use remote_ttys.Db.Rows.{
  TokenRow, Db, select_first, select_all, delete_where, update_where, owned_by,
}

unfoldable pub get_agent_token : String → Db → Option TokenRow
unfolding select_first
get_agent_token token db = select_first (λ (t : TokenRow). t.token == token) db.agent_tokens

unfoldable pub get_agent_token_by_id : ℕ → Db → Option TokenRow
unfolding select_first
get_agent_token_by_id id db = select_first (λ (t : TokenRow). eqb t.id id) db.agent_tokens

unfoldable pub create_agent_token : String → String → String → String → ℕ → Db → Option Db
create_agent_token datetime token label notes user db =
    if any (λ (t : TokenRow). t.token == token) db.agent_tokens
    then none
    else some (record db {
      agent_tokens =
          db.agent_tokens
          ++ record {
            id = db.next_token;
            token = token;
            label = label;
            notes = notes;
            enabled = 1;
            user_id = some user;
            created_at = datetime;
          }
            ∷ [];
      next_token = db.next_token + 1;
    })

unfoldable pub delete_agent_token : String → Db → Bool × Db
unfolding delete_where
delete_agent_token token db = (
  any (λ (t : TokenRow). t.token == token) db.agent_tokens,
  record db { agent_tokens = delete_where (λ (t : TokenRow). t.token == token) db.agent_tokens },
)

abbrev pub has_agent_tokens : Db → Bool
has_agent_tokens db = ltb 0 (length db.agent_tokens)

unfoldable pub list_agent_tokens_by_user : ℕ → Db → List TokenRow
unfolding select_all
list_agent_tokens_by_user user db =
    select_all (λ (t : TokenRow). owned_by user t.user_id) db.agent_tokens

unfoldable pub is_token_owned_by_user : ℕ → ℕ → Db → Bool
is_token_owned_by_user id user db =
    any (λ (t : TokenRow). eqb t.id id && owned_by user t.user_id) db.agent_tokens

-- A NULL owner and a missing row are one `none`: no caller tells them apart.
abbrev owner_of : Option TokenRow → Option ℕ
owner_of none = none
owner_of (some t) = t.user_id

unfoldable pub get_token_owner : String → Db → Option ℕ
unfolding get_agent_token
get_token_owner token db = owner_of (get_agent_token token db)

unfoldable pub is_token_hash_owned_by_user : String → ℕ → Db → Bool
unfolding get_token_owner
is_token_hash_owned_by_user token user db = owned_by user (get_token_owner token db)

unfoldable pub set_agent_token_enabled : ℕ → Bool → Db → Bool × Db
unfolding update_where
set_agent_token_enabled id enabled db = (
  any (λ (t : TokenRow). eqb t.id id) db.agent_tokens,
  record db {
    agent_tokens =
        update_where (λ (t : TokenRow). eqb t.id id)
          (λ t. record t { enabled = if enabled then 1 else 0 }) db.agent_tokens;
  },
)
