-- ===== src/Relay/Router/FromAgent.antt =====
-- packages/relay/src/router.ts, `handleAgentMessage`: what the relay does with an agent's message.
use remote_ttys.Base.{String, false, Option, none, some, List, [], ◌∷◌, get}
use remote_ttys.Base.Ints.{ℤ}
use remote_ttys.Base.Texts.{truthy, or_default, show_ℤ, ◌<>◌}
use remote_ttys.Protocol.{AgentMessage, RelayToBrowserMessage}
use remote_ttys.Relay.{to_browser, Relay, Env, emit}
use remote_ttys.Relay.BrowserHub.{send_to_browser, send_to_session_subscribers}
use remote_ttys.Relay.AgentHub.{get_agent}
use remote_ttys.Relay.Router.Sessions.{destroy_session, session_of_agent, touch, broadcast_to_owner}

-- `browser.ws.send(payload)` for each browser of the session, with no look at `readyState`.
unfoldable pub send_created : RelayToBrowserMessage → List String → Relay → Relay
send_created msg [] r = r
send_created msg (b ∷ bs) r =
    send_created msg bs
      (elim (get b r.browsers) [ none ↦ r | some conn ↦ emit (to_browser conn.ws msg) r ])

unfoldable pub send_create_error : Env → RelayToBrowserMessage → List String → Relay → Relay
send_create_error e msg [] r = r
send_create_error e msg (b ∷ bs) r = send_create_error e msg bs (send_to_browser e b msg r)

-- The cases of `handleAgentMessage` for a message of a session that is this agent's.
module _ (e : Env) (a : String) where
  unfoldable pub on_hello :
      Option String → Option String → Option String → Option (List String) → Relay → Relay
  on_hello name os key caps r = elim (get_agent a r) [
    | none ↦ r
    | some agent ↦
        broadcast_to_owner e agent.token
          (RelayToBrowserMessage.agent_online a name os (or_default key "") caps) r
  ]

  unfoldable pub on_pty_created : String → String → String → Option String → Relay → Relay
  on_pty_created s key sig req r = elim (session_of_agent a s r) [
    | none ↦ r
    | some m ↦
        send_created (RelayToBrowserMessage.pty_created a s key sig (truthy req)) m.browser_ids r
  ]

  unfoldable pub on_agent_data : String → String → Relay → Relay
  on_agent_data s payload r = elim (session_of_agent a s r) [
    | none ↦ r
    | some m ↦
        send_to_session_subscribers e s (RelayToBrowserMessage.pty_data a s payload) (touch e s r)
  ]

  unfoldable pub on_exited : String → ℤ → Relay → Relay
  on_exited s code r = elim (session_of_agent a s r) [
    | none ↦ r
    | some m ↦
        destroy_session e s a ("sessionId=" <> s <> ", exitCode=" <> show_ℤ code) false
          (send_to_session_subscribers e s (RelayToBrowserMessage.pty_exited a s code) r)
  ]

  -- A message that is passed on to the subscribers and changes nothing else.
  unfoldable pub forward : String → RelayToBrowserMessage → Relay → Relay
  forward s msg r = elim (session_of_agent a s r) [
    | none ↦ r
    | some m ↦ send_to_session_subscribers e s msg r
  ]

  unfoldable pub on_error : String → String → Option String → Relay → Relay
  on_error s error req r = elim (session_of_agent a s r) [
    | none ↦ r
    | some m ↦ elim (truthy req) [
      | some id ↦
          destroy_session e s a ("sessionId=" <> s <> ", reason=create_failed_on_agent") false (
            send_create_error e (RelayToBrowserMessage.pty_create_error a error (some id))
              m.browser_ids r)
      | none ↦ send_to_session_subscribers e s (RelayToBrowserMessage.pty_error a s error) r
    ]
  ]

  unfoldable pub handle_agent_message : AgentMessage → Relay → Relay
  handle_agent_message (AgentMessage.hello name os fp key caps) r = on_hello name os key caps r
  handle_agent_message AgentMessage.heartbeat r = r
  handle_agent_message (AgentMessage.pong id timestamp) r = r
  handle_agent_message (AgentMessage.pty_created s key sig req) r = on_pty_created s key sig req r
  handle_agent_message (AgentMessage.pty_data s payload) r = on_agent_data s payload r
  handle_agent_message (AgentMessage.pty_exited s code) r = on_exited s code r
  handle_agent_message (AgentMessage.pty_replay s payload) r =
      forward s (RelayToBrowserMessage.pty_replay a s payload) r
  handle_agent_message (AgentMessage.pty_error s error req) r = on_error s error req r
  handle_agent_message (AgentMessage.file_transfer_ack s t payload) r =
      forward s (RelayToBrowserMessage.file_transfer_ack a s t payload) r
  handle_agent_message (AgentMessage.file_transfer_progress s t payload) r =
      forward s (RelayToBrowserMessage.file_transfer_progress a s t payload) r
  handle_agent_message (AgentMessage.file_transfer_complete s t payload) r =
      forward s (RelayToBrowserMessage.file_transfer_complete a s t payload) r
  handle_agent_message (AgentMessage.other type) r = r
