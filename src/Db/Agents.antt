-- ===== src/Db/Agents.antt =====
-- packages/relay/src/db.ts: the statements on agents.
use remote_ttys.Base.{
  ℕ, String, Bool, ◌&&◌, Option, none, some, [], ◌∷◌, ◌++◌, map, any, ◌==◌, if◌then◌else◌,
}
use remote_ttys.Db.Rows.{TokenRow, AgentRow, Db, select_first, delete_where, update_where, owned_by}

-- An absent name is bound as NULL, which equals nothing.
unfoldable pub find_agent_by_token_and_name : String → Option String → Db → Option AgentRow
unfolding select_first
find_agent_by_token_and_name token none db = none
find_agent_by_token_and_name token (some name) db =
    select_first (λ (a : AgentRow). a.token == token && a.name == name) db.agents

-- The conflict target, (token, name), is tried first; a conflict of the primary key then throws.
unfoldable pub upsert_row : String → String → String → String → String → Db → Option Db
unfolding update_where
upsert_row datetime id name os token db =
    let same = λ (a : AgentRow). a.token == token && a.name == name in
    if any same db.agents
    then some (record db {
      agents =
          update_where same (λ a. record a { os = os; online = 1; last_seen = some datetime })
            db.agents;
    })
    else if any (λ (a : AgentRow). a.id == id) db.agents
    then none
    else some (record db {
      agents =
          db.agents
          ++ record {
            id = id;
            name = name;
            os = os;
            token = token;
            fingerprint = none;
            online = 1;
            last_seen = some datetime;
            created_at = datetime;
          }
            ∷ [];
    })

-- A name and an operating system are NOT NULL: without one of them the statement throws.
unfoldable pub upsert_agent :
    String → String → Option String → Option String → String → Db → Option Db
upsert_agent datetime id name os token db = elim name [
  | none ↦ none
  | some n ↦ elim os [ none ↦ none | some o ↦ upsert_row datetime id n o token db ]
]

unfoldable pub set_agent_online : String → String → Bool → Db → Db
unfolding update_where
set_agent_online datetime id online db = record db {
  agents =
      update_where (λ (a : AgentRow). a.id == id)
        (λ a. record a { online = if online then 1 else 0; last_seen = some datetime }) db.agents;
}

unfoldable pub delete_agent_from_db : String → Db → Bool × Db
unfolding delete_where
delete_agent_from_db id db = (
  any (λ (a : AgentRow). a.id == id) db.agents,
  record db { agents = delete_where (λ (a : AgentRow). a.id == id) db.agents },
)

-- The join of `agents` and `agent_tokens` on the token.
unfoldable pub is_agent_owned_by_user : String → ℕ → Db → Bool
is_agent_owned_by_user id user db =
    any
      (λ (a : AgentRow).
        a.id == id
        && any (λ (t : TokenRow). a.token == t.token && owned_by user t.user_id) db.agent_tokens)
      db.agents

unfoldable pub reset_all_agents_offline : Db → Db
unfolding update_where
reset_all_agents_offline db = record db {
  agents = map (λ (a : AgentRow). record a { online = 0 }) db.agents;
}

unfoldable pub set_agent_fingerprint : String → String → Db → Db
unfolding update_where
set_agent_fingerprint id fingerprint db = record db {
  agents =
      update_where (λ (a : AgentRow). a.id == id) (λ a. record a { fingerprint = some fingerprint })
        db.agents;
}

unfoldable pub clear_agent_fingerprint : String → Db → Bool × Db
unfolding update_where
clear_agent_fingerprint id db = (
  any (λ (a : AgentRow). a.id == id) db.agents,
  record db {
    agents =
        update_where (λ (a : AgentRow). a.id == id) (λ a. record a { fingerprint = none })
          db.agents;
  },
)
