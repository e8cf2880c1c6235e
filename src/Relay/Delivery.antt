-- ===== src/Relay/Delivery.antt =====
-- packages/relay/src/router.ts, `handleAgentMessage`: the output of a session reaches its browsers.
use remote_ttys.Base.{String, true, some, get, has, has_key, ◌≡◌, arith, eq_iff}
use mathlib.Core.List.{Memᴰ}
use remote_ttys.Protocol.{AgentMessage, RelayToBrowserMessage}
use remote_ttys.Relay.{BrowserConnection, SessionMapping, to_browser, Relay, Env}
use remote_ttys.Relay.BrowserHub.{send_to_session_subscribers}
use remote_ttys.Relay.Router.Sessions.{session_of_agent, touch}
use remote_ttys.Relay.Router.FromAgent.{on_agent_data, handle_agent_message}
use remote_ttys.Relay.Reach.{Inv}
use remote_ttys.Relay.Outputs.{send_where-reaches}

module _ (e : Env) (a s : String) (r : Relay) (v : Inv r) (m : SessionMapping)
    (found : get s r.sessions ≡ some m) where
  owned : m.agent_id ≡ a → session_of_agent a s r ≡ some m
  unfolding session_of_agent
  owned same = ground (arith, found, eq_iff m.agent_id a)

  listed-subscribed :
      (b : String) (c : BrowserConnection)
      → get b r.browsers ≡ some c
      → has b m.browser_ids ≡ true
      → has s c.subscribed_sessions ≡ true
  unfolding has_key
  listed-subscribed b c connected lists = ground (arith, v.mirrors b s, found)

  -- Where the relay's invariant holds: output of an agent's own session goes to every connected browser
  -- with an open socket that the session's mapping lists.
  pub pty_data-reaches :
      (payload b : String) (c : BrowserConnection)
      → m.agent_id ≡ a
      → has b m.browser_ids ≡ true
      → get b r.browsers ≡ some c
      → e.is_open c.ws ≡ true
      → Memᴰ
          (to_browser c.ws (RelayToBrowserMessage.pty_data a s payload))
          (handle_agent_message e a (AgentMessage.pty_data s payload) r).out
  unfolding handle_agent_message on_agent_data send_to_session_subscribers touch
  pty_data-reaches payload b c same lists connected open_ =
      rw (owned same, on_agent_data)
        (send_where-reaches _ _ b c r.browsers r.out connected
          (ground (arith, listed-subscribed b c connected lists, open_)))
