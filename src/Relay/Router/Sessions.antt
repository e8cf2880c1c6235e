-- ===== src/Relay/Router/Sessions.antt =====
-- packages/relay/src/router.ts: the session table, its limits, and how a session ends.
use remote_ttys.Base.{
  ℕ, ◌-◌, ◌*◌, String, Bool, true, Option, none, some, [], ◌∷◌, Map, get, delete, modify, ltb, ◌==◌,
  if◌then◌else◌,
}
use remote_ttys.Base.Texts.{◌<>◌}
use remote_ttys.Protocol.{RelayToAgentMessage, RelayToBrowserMessage}
use remote_ttys.Db
use remote_ttys.Relay.{SessionMapping, Relay, Env, audit}
use remote_ttys.Relay.BrowserHub.{broadcast_to_user_browsers, unsubscribe_all_from_session}
use remote_ttys.Relay.AgentHub.{send_to_agent, delete_agent_session}

abbrev pub max_sessions : ℕ
max_sessions = 500

abbrev pub max_sessions_per_agent : ℕ
max_sessions_per_agent = 20

abbrev pub max_sessions_per_browser : ℕ
max_sessions_per_browser = 5

abbrev pub session_ttl_ms : ℕ
session_ttl_ms = 24 * 60 * 60 * 1000

unfoldable pub drop_session : String → Relay → Relay
drop_session s r = record r { sessions = delete s r.sessions }

unfoldable pub destroy_session : Env → String → String → String → Bool → Relay → Relay
destroy_session e s a detail notify r =
    let r1 = if notify then send_to_agent e a (RelayToAgentMessage.pty_close s none) r else r in
    let r2 = delete_agent_session a s r1 in
    let r3 = drop_session s r2 in
    let r4 = unsubscribe_all_from_session s r3 in audit e "session_close" none detail r4

-- The hourly sweep, over the entries of the table as it was at the start: a round deletes at
-- most the entry that it visits.
unfoldable pub sweep_from : Env → Map SessionMapping → Relay → Relay
sweep_from e [] r = r
sweep_from e ((s, m) ∷ rest) r = sweep_from e rest (
    if ltb session_ttl_ms (e.now - m.last_activity)
    then destroy_session e s m.agent_id ("sessionId=" <> s <> ", reason=ttl_expired") true r
    else r)

unfoldable pub sweep : Env → Relay → Relay
sweep e r = sweep_from e r.sessions r

-- `sessions.get(sessionId)`, if the session is of this agent.
unfoldable pub session_of_agent : String → String → Relay → Option SessionMapping
session_of_agent a s r = elim (get s r.sessions) [
  | none ↦ none
  | some m ↦ if m.agent_id == a then some m else none
]

unfoldable pub set_activity : ℕ → SessionMapping → SessionMapping
set_activity now m = record m { last_activity = now }

unfoldable pub touch : Env → String → Relay → Relay
touch e s r = record r { sessions = modify s (set_activity e.now) r.sessions }

-- A broadcast to the browsers of the owner of a token, if it has one.
unfoldable pub broadcast_to_owner : Env → String → RelayToBrowserMessage → Relay → Relay
broadcast_to_owner e token msg r = elim (Db.get_token_owner token r.db) [
  | none ↦ r
  | some owner ↦ broadcast_to_user_browsers e owner msg r
]
