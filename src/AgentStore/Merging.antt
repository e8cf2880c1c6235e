-- ===== src/AgentStore/Merging.antt =====
-- packages/web/src/hooks/useAgentStore.ts: what a fetch keeps of what sockets brought.
use remote_ttys.Base.{String, List, [], ◌∷◌, map, ◌==◌, ◌≡◌, refl, ap, inl, inr, Bool-cases}
use remote_ttys.AgentStore.{AgentInfo, ApiAgent, merge_agent, merge_agents, update_first}

-- After a fetch the agents are those of the answer, in its order.
merge_agents-ids :
    (known : List AgentInfo) (data_ : List ApiAgent)
    → map (λ (a : AgentInfo). a.id) (merge_agents known data_) ≡ map (λ (a : ApiAgent). a.id) data_
unfolding merge_agents merge_agent
merge_agents-ids known [] = refl
merge_agents-ids known (a ∷ data_) = ap (λ ids. a.id ∷ ids) (merge_agents-ids known data_)

-- A change that keeps ids keeps the order of the agents.
update_first-ids :
    (id : String) (f : AgentInfo → AgentInfo) (keeps : (a : AgentInfo) → (f a).id ≡ a.id)
    (agents : List AgentInfo)
    → map (λ (a : AgentInfo). a.id) (update_first id f agents)
      ≡ map (λ (a : AgentInfo). a.id) agents
unfolding update_first
update_first-ids id f keeps [] = refl
update_first-ids id f keeps (a ∷ agents) = elim (Bool-cases (a.id == id)) [
  | inl hit ↦ rw (hit, update_first) (ap (λ i. i ∷ map (λ (a : AgentInfo). a.id) agents) (keeps a))
  | inr miss ↦ rw (miss, update_first) (ap (λ ids. a.id ∷ ids) (update_first-ids id f keeps agents))
]
