-- ===== src/Db/Views.antt =====
-- packages/relay/src/db.ts: the joins that the pages list, `listAgentsByUser` and `getUserStats`.
use Prim.Native.Nat.{Ordering}
use Prim.Native.String.{compare}
use remote_ttys.Base.{
  ℕ, String, Bool, true, false, Option, none, some, List, [], ◌∷◌, ◌++◌, map, length, eqb, ltb,
  ◌==◌, add, if◌then◌else◌,
}
use remote_ttys.Db.Rows.{UserRow, TokenRow, AgentRow, Db, select_all, owned_by}

-- Whether a time is later; NULL is smaller than any text.
abbrev pub is_later : Option String → Option String → Bool
is_later (some s) (some t) = elim (compare s t) [ Ordering.gt ↦ true | _ ↦ false ]
is_later (some s) none = true
is_later none t = false

-- `ORDER BY a.online DESC, a.last_seen DESC`: the first comes before the second.
unfoldable pub comes_before : AgentRow → AgentRow → Bool
comes_before a b =
    if eqb a.online b.online then is_later a.last_seen b.last_seen else ltb b.online a.online

unfoldable pub insert_sorted : AgentRow → List AgentRow → List AgentRow
insert_sorted a [] = a ∷ []
insert_sorted a (b ∷ bs) = if comes_before b a then b ∷ insert_sorted a bs else a ∷ b ∷ bs

-- Rows that tie stay in the order of the tables.
unfoldable pub sort_agents : List AgentRow → List AgentRow
sort_agents [] = []
sort_agents (a ∷ rows) = insert_sorted a (sort_agents rows)

-- The rows of `JOIN agent_tokens t ON a.token = t.token`: the agent once for each of the tokens.
unfoldable pub join_tokens : List TokenRow → List AgentRow → List AgentRow
join_tokens tokens [] = []
join_tokens tokens (a ∷ rows) =
    map (λ (t : TokenRow). a) (select_all (λ (t : TokenRow). a.token == t.token) tokens)
    ++ join_tokens tokens rows

unfoldable pub tokens_of_user : ℕ → Db → List TokenRow
tokens_of_user user db = select_all (λ (t : TokenRow). owned_by user t.user_id) db.agent_tokens

unfoldable pub list_agents_by_user : ℕ → Db → List AgentRow
list_agents_by_user user db = sort_agents (join_tokens (tokens_of_user user db) db.agents)

pub record UserStats : Type 0 where
  pub username : String
  pub role : String
  pub token_count : ℕ
  pub agent_count : ℕ
  pub online_agent_count : ℕ
  pub created_at : String

-- The distinct ids of the rows.
unfoldable pub distinct_ids : List AgentRow → List String
distinct_ids [] = []
distinct_ids (a ∷ rows) = add a.id (distinct_ids rows)

-- Token ids are a primary key, so they are distinct as they stand.
unfoldable pub stats_of : Db → UserRow → UserStats
stats_of db user =
    let joined = join_tokens (tokens_of_user user.id db) db.agents in
    record {
      username = user.username;
      role = user.role;
      token_count = length (tokens_of_user user.id db);
      agent_count = length (distinct_ids joined);
      online_agent_count = length (select_all (λ (a : AgentRow). eqb a.online 1) joined);
      created_at = user.created_at;
    }

unfoldable pub get_user_stats : Db → List UserStats
get_user_stats db = map (stats_of db) db.users
