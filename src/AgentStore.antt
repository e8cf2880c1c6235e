-- ===== src/AgentStore.antt =====
-- packages/web/src/hooks/useAgentStore.ts: the agents that the page knows, and the one selected. Each
-- function is one update of the state; a fetch is the list that it brings, once it is there.
pub mod Merging
use remote_ttys.Base.{
  ℕ, String, Bool, true, false, not, Option, none, some, List, [], ◌∷◌, eqb, ◌==◌, if◌then◌else◌,
}
use remote_ttys.Base.Ints.{ℤ, pos, negsuc}
use remote_ttys.Base.Texts.{truthy, or_default}
use remote_ttys.Db.{select_first, delete_where}

pub record AgentInfo : Type 0 where
  pub id : String
  pub name : String
  pub os : String
  pub online : Bool
  pub sessions : List String
  pub last_seen : Option String
  pub identity_key : Option String
  pub latency_ms : Option ℤ
  pub capabilities : List String

-- The fields of an agent of the interface that the store reads.
pub record ApiAgent : Type 0 where
  pub id : String
  pub name : String
  pub os : String
  pub online : Bool
  pub sessions : List String
  pub last_seen : Option String
  pub identity_key : Option String
  pub latency_ms : Option ℤ
  pub capabilities : Option (List String)

pub record AgentStore : Type 0 where
  pub agents : List AgentInfo
  pub selected : Option String

-- `prev.find(a => a.id === id)`
abbrev pub find_agent : String → List AgentInfo → Option AgentInfo
find_agent id agents = select_first (λ (a : AgentInfo). a.id == id) agents

-- `new Map(prev.map(a => [a.id, a])).get(id)`: of two with one id, the later.
unfoldable pub find_last : String → List AgentInfo → Option AgentInfo
find_last id [] = none
find_last id (a ∷ agents) = elim (find_last id agents) [
  | some later ↦ some later
  | none ↦ if a.id == id then some a else none
]

abbrev pub first_of : {A : Type 0} → Option A → Option A → Option A
first_of (some a) b = some a
first_of none b = b

abbrev key_of : Option AgentInfo → Option String
key_of none = none
key_of (some a) = a.identity_key

abbrev latency_of : Option AgentInfo → Option ℤ
latency_of none = none
latency_of (some a) = a.latency_ms

abbrev capabilities_of : Option AgentInfo → List String
capabilities_of none = []
capabilities_of (some a) = a.capabilities

unfoldable pub merge_agent : Option AgentInfo → ApiAgent → AgentInfo
merge_agent known a = record {
  id = a.id;
  name = a.name;
  os = a.os;
  online = a.online;
  sessions = a.sessions;
  last_seen = a.last_seen;
  identity_key = first_of (truthy a.identity_key) (truthy (key_of known));
  latency_ms = first_of a.latency_ms (latency_of known);
  capabilities = or_default a.capabilities (capabilities_of known);
}

unfoldable pub merge_agents : List AgentInfo → List ApiAgent → List AgentInfo
merge_agents known [] = []
merge_agents known (a ∷ data_) = merge_agent (find_last a.id known) a ∷ merge_agents known data_

-- `setAgents` in `fetchAgents`.
unfoldable pub on_fetched : List ApiAgent → AgentStore → AgentStore
on_fetched data_ s = record s { agents = merge_agents s.agents data_ }

-- The copy of the list with a change at the first index where the id is.
unfoldable pub update_first : String → (AgentInfo → AgentInfo) → List AgentInfo → List AgentInfo
update_first id f [] = []
update_first id f (a ∷ agents) =
    let rest = update_first id f agents in if a.id == id then f a ∷ agents else a ∷ rest

unfoldable pub set_online : Option String → Option (List String) → AgentInfo → AgentInfo
set_online key caps a = record a {
  online = true;
  identity_key = first_of key a.identity_key;
  capabilities = or_default caps a.capabilities;
}

-- `agent.online`: the result says whether the agent is not known, and a fetch wanted.
unfoldable pub on_online :
    String → Option String → Option (List String) → AgentStore → Bool × AgentStore
on_online id key caps s = elim (find_agent id s.agents) [
  | none ↦ (true, s)
  | some a ↦ (false, record s { agents = update_first id (set_online key caps) s.agents })
]

-- A latency that is not positive is none.
unfoldable pub shown_latency : Option ℤ → Option ℤ
shown_latency none = none
shown_latency (some (pos n)) = if eqb n 0 then none else some (pos n)
shown_latency (some (negsuc n)) = none

-- `agent.latency`
unfoldable pub on_latency : String → Option ℤ → AgentStore → AgentStore
on_latency id latency s = record s {
  agents = update_first id (λ a. record a { latency_ms = shown_latency latency }) s.agents;
}

abbrev id_of : Option AgentInfo → Option String
id_of none = none
id_of (some a) = some a.id

unfoldable pub first_online : List AgentInfo → Option String
first_online agents = id_of (select_first (λ (a : AgentInfo). a.online) agents)

-- The effect that selects the first agent online where none is selected.
unfoldable pub auto_select : AgentStore → AgentStore
auto_select s = elim (truthy s.selected) [
  | some id ↦ s
  | none ↦ elim (first_online s.agents) [ none ↦ s | some id ↦ record s { selected = some id } ]
]

unfoldable pub select_agent : String → AgentStore → AgentStore
select_agent id s = record s { selected = some id }

abbrev first_agent : List AgentInfo → Option String
first_agent [] = none
first_agent (a ∷ agents) = some a.id

-- `deleteAgent`, where the relay agreed and before the fetch.
unfoldable pub after_delete_agent : String → AgentStore → AgentStore
after_delete_agent id s =
    let remaining = delete_where (λ (a : AgentInfo). a.id == id) s.agents in
    elim s.selected [
      | none ↦ s
      | some chosen ↦
          if chosen == id
          then record s { selected = first_of (first_online remaining) (first_agent remaining) }
          else s
    ]
