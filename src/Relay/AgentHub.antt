-- ===== src/Relay/AgentHub.antt =====
-- packages/relay/src/agentHub.ts: the table of agent connections and what is sent to them.
use remote_ttys.Base.{
  map, String, Bool, Option, none, some, List, [], ◌∷◌, Map, get, modify, add, remove, ◌==◌,
  if◌then◌else◌,
}
use remote_ttys.Protocol.{RelayToAgentMessage}
use remote_ttys.Relay.{AgentConnection, Output, to_agent, close, Relay, Env, emit}

unfoldable pub get_agent : String → Relay → Option AgentConnection
get_agent a r = get a r.agents

unfoldable pub get_agent_identity_key : String → Relay → String
get_agent_identity_key a r = elim (get a r.agents) [ none ↦ "" | some c ↦ c.identity_key ]

unfoldable pub get_all_agents : Relay → List AgentConnection
get_all_agents r = map (λ (entry : String × AgentConnection). entry.1) r.agents

unfoldable pub send_to_agent : Env → String → RelayToAgentMessage → Relay → Relay
unfolding emit
send_to_agent e a msg r = elim (get a r.agents) [
  | none ↦ r
  | some conn ↦ if e.is_open conn.ws then emit (to_agent conn.ws msg) r else r
]

unfoldable pub add_session : String → AgentConnection → AgentConnection
add_session s c = record c { sessions = add s c.sessions }

unfoldable pub remove_session : String → AgentConnection → AgentConnection
remove_session s c = record c { sessions = remove s c.sessions }

-- `agent.sessions.add(sessionId)` and `agent.sessions.delete(sessionId)` on the stored object.
unfoldable pub add_agent_session : String → String → Relay → Relay
add_agent_session a s r = record r { agents = modify a (add_session s) r.agents }

unfoldable pub delete_agent_session : String → String → Relay → Relay
delete_agent_session a s r = record r { agents = modify a (remove_session s) r.agents }

unfoldable pub close_where :
    (AgentConnection → Bool) → Map AgentConnection → List Output → List Output
close_where p [] out = out
close_where p ((k, a) ∷ rest) out =
    close_where p rest (if p a then close a.ws (some 4002) ∷ out else out)

unfoldable pub disconnect_agents_by_token : String → Relay → Relay
unfolding close_where
disconnect_agents_by_token token r = record r {
  out = close_where (λ (a : AgentConnection). a.token == token) r.agents r.out;
}
