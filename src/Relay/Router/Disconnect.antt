-- ===== src/Relay/Router/Disconnect.antt =====
-- packages/relay/src/router.ts: what the router does when a browser or an agent is gone, and when
-- the latency of an agent is known.
use remote_ttys.Base.{
  String, Bool, true, false, Option, none, some, List, [], ◌∷◌, Map, modify, remove, ◌==◌,
  if◌then◌else◌,
}
use remote_ttys.Base.Ints.{ℤ}
use remote_ttys.Base.Texts.{◌<>◌}
use remote_ttys.Protocol.{RelayToBrowserMessage}
use remote_ttys.Relay.{SessionMapping, Relay, Env}
use remote_ttys.Relay.BrowserHub.{unsubscribe_all_from_session}
use remote_ttys.Relay.AgentHub.{get_agent}
use remote_ttys.Relay.Router.Sessions.{destroy_session, broadcast_to_owner, drop_session}

unfoldable pub leave : String → SessionMapping → SessionMapping
leave b m = record m { browser_ids = remove b m.browser_ids }

-- `mapping.browserIds.delete(browserId)` on the stored object.
unfoldable pub leave_session : String → String → Relay → Relay
leave_session b s r = record r { sessions = modify s (leave b) r.sessions }

abbrev pub is_empty : List String → Bool
is_empty [] = true
is_empty (x ∷ xs) = false

-- Over the entries as they were at the start: a round deletes at most the entry that it visits.
unfoldable pub leave_from : Env → String → Map SessionMapping → Relay → Relay
leave_from e b [] r = r
leave_from e b ((s, m) ∷ rest) r =
    let left = leave_session b s r in
    leave_from e b rest (
      if is_empty (remove b m.browser_ids)
      then destroy_session e s m.agent_id ("sessionId=" <> s <> ", reason=browser_disconnect") true
          left
      else left)

unfoldable pub handle_browser_disconnect : Env → String → Relay → Relay
handle_browser_disconnect e b r = leave_from e b r.sessions r

unfoldable pub end_from : String → Map SessionMapping → Relay → Relay
end_from a [] r = r
end_from a ((s, m) ∷ rest) r =
    end_from a rest
      (if m.agent_id == a then drop_session s (unsubscribe_all_from_session s r) else r)

unfoldable pub handle_agent_disconnect : Env → String → String → Relay → Relay
handle_agent_disconnect e a token r =
    end_from a r.sessions (broadcast_to_owner e token (RelayToBrowserMessage.agent_offline a) r)

unfoldable pub handle_latency_update : Env → String → Option ℤ → Relay → Relay
handle_latency_update e a latency r = elim (get_agent a r) [
  | none ↦ r
  | some agent ↦ broadcast_to_owner e agent.token (RelayToBrowserMessage.agent_latency a latency) r
]
