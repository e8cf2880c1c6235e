-- ===== src/Relay/Moves/FromAgent.antt =====
-- The moves of an agent's message: activity, the end of a session, or none.
use remote_ttys.Base.{String, Option, List, refl, inl, inr, Option-cases}
use remote_ttys.Base.Ints.{ℤ}
use remote_ttys.Base.Texts.{truthy}
use remote_ttys.Protocol.{AgentMessage, RelayToBrowserMessage}
use remote_ttys.Relay.{Relay, Env}
use remote_ttys.Relay.AgentHub.{get_agent}
use remote_ttys.Relay.BrowserHub.{send_to_session_subscribers}
use remote_ttys.Relay.Fields.{
  SameTables, SameTables-refl, broadcast_to_owner-SameTables, send_created-SameTables,
  send_create_error-SameTables, send_to_session_subscribers-SameTables,
}
use remote_ttys.Relay.Router.Sessions.{session_of_agent, touch}
use remote_ttys.Relay.Router.FromAgent.{
  on_hello, on_pty_created, on_agent_data, on_exited, forward, on_error, handle_agent_message,
}
use remote_ttys.Relay.Moves.{Moves, done, step, touched, one, one_same}
use remote_ttys.Relay.Moves.Sessions.{destroy_session-Move}

module _ (e : Env) (a : String) where
  on_hello-SameTables :
      (name os : Option String) (key : Option String) (caps : Option (List String)) (r : Relay)
      → SameTables r (on_hello e a name os key caps r)
  unfolding on_hello
  on_hello-SameTables name os key caps r = elim (Option-cases (get_agent a r)) [
    | inl offline ↦ rw (offline, on_hello) (SameTables-refl r)
    | inr (c, online) ↦ rw (online, on_hello) (broadcast_to_owner-SameTables e c.token _ r)
  ]

  forward-SameTables :
      (s : String) (msg : RelayToBrowserMessage) (r : Relay) → SameTables r (forward e a s msg r)
  unfolding forward
  forward-SameTables s msg r = elim (Option-cases (session_of_agent a s r)) [
    | inl none_such ↦ rw (none_such, forward) (SameTables-refl r)
    | inr (m, found) ↦ rw (found, forward) (send_to_session_subscribers-SameTables e s msg r)
  ]

  on_pty_created-SameTables :
      (s key sig : String) (req : Option String) (r : Relay)
      → SameTables r (on_pty_created e a s key sig req r)
  unfolding on_pty_created
  on_pty_created-SameTables s key sig req r = elim (Option-cases (session_of_agent a s r)) [
    | inl none_such ↦ rw (none_such, on_pty_created) (SameTables-refl r)
    | inr (m, found) ↦ rw (found, on_pty_created) (send_created-SameTables _ m.browser_ids r)
  ]

  on_agent_data-Moves : (s payload : String) (r : Relay) → Moves r (on_agent_data e a s payload r)
  unfolding on_agent_data send_to_session_subscribers touch
  on_agent_data-Moves s payload r = elim (Option-cases (session_of_agent a s r)) [
    | inl none_such ↦ rw (none_such, on_agent_data) done
    | inr (m, found) ↦ rw (found, on_agent_data) (one (touched s e.now refl refl))
  ]

  on_exited-Moves : (s : String) (code : ℤ) (r : Relay) → Moves r (on_exited e a s code r)
  unfolding on_exited
  on_exited-Moves s code r = elim (Option-cases (session_of_agent a s r)) [
    | inl none_such ↦ rw (none_such, on_exited) done
    | inr (m, found) ↦
        rw (found, on_exited)
          (step (one_same (send_to_session_subscribers-SameTables e s _ r))
            (destroy_session-Move e s a _ _ _))
  ]

  on_error-Moves :
      (s error : String) (req : Option String) (r : Relay) → Moves r (on_error e a s error req r)
  unfolding on_error
  on_error-Moves s error req r = elim (Option-cases (session_of_agent a s r)) [
    | inl none_such ↦ rw (none_such, on_error) done
    | inr (m, found) ↦ elim (Option-cases (truthy req)) [
      | inl late ↦
          rw (found, on_error)
            (rw (late, on_error) (one_same (send_to_session_subscribers-SameTables e s _ r)))
      | inr (id, early) ↦
          rw (found, on_error)
            (rw (early, on_error)
              (step (one_same (send_create_error-SameTables e _ m.browser_ids r))
                (destroy_session-Move e s a _ _ _)))
    ]
  ]

  pub handle_agent_message-Moves :
      (msg : AgentMessage) (r : Relay) → Moves r (handle_agent_message e a msg r)
  unfolding handle_agent_message
  handle_agent_message-Moves (AgentMessage.hello name os fp key caps) r =
      one_same (on_hello-SameTables name os key caps r)
  handle_agent_message-Moves (AgentMessage.pty_created s key sig req) r =
      one_same (on_pty_created-SameTables s key sig req r)
  handle_agent_message-Moves (AgentMessage.pty_data s payload) r = on_agent_data-Moves s payload r
  handle_agent_message-Moves (AgentMessage.pty_exited s code) r = on_exited-Moves s code r
  handle_agent_message-Moves (AgentMessage.pty_replay s payload) r =
      one_same (forward-SameTables s _ r)
  handle_agent_message-Moves (AgentMessage.pty_error s error req) r = on_error-Moves s error req r
  handle_agent_message-Moves (AgentMessage.file_transfer_ack s t payload) r =
      one_same (forward-SameTables s _ r)
  handle_agent_message-Moves (AgentMessage.file_transfer_progress s t payload) r =
      one_same (forward-SameTables s _ r)
  handle_agent_message-Moves (AgentMessage.file_transfer_complete s t payload) r =
      one_same (forward-SameTables s _ r)
  handle_agent_message-Moves AgentMessage.heartbeat r = done
  handle_agent_message-Moves (AgentMessage.pong id timestamp) r = done
  handle_agent_message-Moves (AgentMessage.other type) r = done
