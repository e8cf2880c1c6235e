-- ===== src/Relay/Isolation/FromBrowser.antt =====
-- packages/relay/src/router.ts, `handleBrowserMessage`: a browser reaches only the agents of its
-- own sessions, and an agent that it may open a session on.
use remote_ttys.Base.{
  String, true, false, Option, none, some, get, has, get-modify, ◌≡◌, refl, inl, inr, Option-cases,
  arith, eq_refl,
}
use remote_ttys.Base.Texts.{or_default}
use remote_ttys.Protocol.{BrowserMessage, RelayToAgentMessage, RelayToBrowserMessage}
use remote_ttys.Relay.{
  AgentConnection, BrowserConnection, SessionMapping, Output, to_agent, to_browser, Relay, Env,
  audit,
}
use remote_ttys.Relay.AgentHub.{add_agent_session, add_session}
use remote_ttys.Relay.Router.Sessions.{touch}
use remote_ttys.Relay.Router.Validate.{clamp_size}
use remote_ttys.Relay.Router.FromBrowser.{
  may_open, create_refusal, register_session, subscribe, create_session, on_pty_create,
  session_of_browser, relay_to_agent, relay_activity, on_replay_request, handle_browser_message,
}
use remote_ttys.Relay.Moves.FromBrowser.{create_refusal-Accepted, session_of_browser-member}
use remote_ttys.Relay.Outputs.{Sends, Adds-refl, send_to_agent-Sends, send_to_browser-Sends}

-- The calls of `send` that a browser's message may cause.
pub data MayCause (b : String) (r : Relay) (o : Output) : Type 0 where
  -- to the agent of a session that lists the browser,
  to_session_agent :
      (s : String) (m : SessionMapping) (c : AgentConnection) (msg : RelayToAgentMessage)
      → get s r.sessions ≡ some m
      → has b m.browser_ids ≡ true
      → get m.agent_id r.agents ≡ some c
      → o ≡ to_agent c.ws msg
      → MayCause b r o
  -- to an agent of the browser's own user,
  to_own_agent :
      (a : String) (c : AgentConnection) (msg : RelayToAgentMessage)
      → may_open b a r ≡ true
      → get a r.agents ≡ some c
      → o ≡ to_agent c.ws msg
      → MayCause b r o
  -- or back to the browser.
  to_itself :
      (c : BrowserConnection) (msg : RelayToBrowserMessage)
      → get b r.browsers ≡ some c
      → o ≡ to_browser c.ws msg
      → MayCause b r o

module _ (e : Env) (b : String) (r : Relay) where
  to_agent-MayCause :
      (a s : String) (m : SessionMapping) (msg : RelayToAgentMessage)
      → session_of_browser b a s r ≡ some m
      → (c : AgentConnection) → get a r.agents ≡ some c
      → MayCause b r (to_agent c.ws msg)
  to_agent-MayCause a s m msg found c there =
      let (stored, of_agent, inside) = session_of_browser-member b a s m r found in
      to_session_agent s m c msg stored (ground arith) (rw of_agent there) refl

  relay_to_agent-Sends :
      (a s : String) (msg : RelayToAgentMessage)
      → Sends (MayCause b r) r (relay_to_agent e b a s msg r)
  unfolding relay_to_agent
  relay_to_agent-Sends a s msg = elim (Option-cases (session_of_browser b a s r)) [
    | inl alien ↦ rw (alien, relay_to_agent) (Adds-refl _ r.out)
    | inr (m, found) ↦
        rw (found, relay_to_agent)
          (send_to_agent-Sends (MayCause b r) e a msg r (to_agent-MayCause a s m msg found))
  ]

  relay_activity-Sends :
      (a s : String) (msg : RelayToAgentMessage)
      → Sends (MayCause b r) r (relay_activity e b a s msg r)
  unfolding relay_activity touch
  relay_activity-Sends a s msg = elim (Option-cases (session_of_browser b a s r)) [
    | inl alien ↦ rw (alien, relay_activity) (Adds-refl _ r.out)
    | inr (m, found) ↦
        rw (found, relay_activity)
          (send_to_agent-Sends (MayCause b r) e a msg (touch e s r)
            (to_agent-MayCause a s m msg found))
  ]

  on_replay_request-Sends : (a s : String) → Sends (MayCause b r) r (on_replay_request e b a s r)
  unfolding on_replay_request subscribe
  on_replay_request-Sends a s = elim (Option-cases (session_of_browser b a s r)) [
    | inl alien ↦ rw (alien, on_replay_request) (Adds-refl _ r.out)
    | inr (m, found) ↦
        rw (found, on_replay_request)
          (send_to_agent-Sends (MayCause b r) e a (RelayToAgentMessage.pty_replay_request s)
            (subscribe b s r) (to_agent-MayCause a s m _ found))
  ]

  -- The session is noted on the agent's connection before the message goes out; its socket stays.
  noted_socket :
      (a : String) (msg : RelayToAgentMessage) (c : AgentConnection)
      → may_open b a r ≡ true
      → get a (add_agent_session a e.uuid (subscribe b e.uuid (register_session e b a r))).agents
        ≡ some c
      → MayCause b r (to_agent c.ws msg)
  unfolding add_agent_session add_session subscribe register_session
  noted_socket a msg c allowed there = elim (Option-cases (get a r.agents)) [
    | inl gone ↦ absurd (ground (arith, get-modify a a (add_session e.uuid) r.agents, eq_refl a))
    | inr (d, known) ↦
        to_own_agent a d msg allowed known
          (ground (arith, get-modify a a (add_session e.uuid) r.agents, eq_refl a))
  ]

  create_session-Sends :
      (a shell cwd key : String) (req : Option String)
      → may_open b a r ≡ true
      → Sends (MayCause b r) r (create_session e b a shell cwd key req r)
  unfolding create_session audit register_session subscribe add_agent_session
  create_session-Sends a shell cwd key req allowed =
      send_to_agent-Sends (MayCause b r) e a _
        (add_agent_session a e.uuid (subscribe b e.uuid (register_session e b a r)))
        (λ c there. noted_socket a _ c allowed there)

  on_pty_create-Sends :
      (a : String) (shell cwd : Option String) (key : String) (req : Option String)
      → Sends (MayCause b r) r (on_pty_create e b a shell cwd key req r)
  unfolding on_pty_create
  on_pty_create-Sends a shell cwd key req =
      elim (Option-cases (create_refusal b a (or_default shell "") (or_default cwd "") r)) [
        | inl passed ↦
            rw (passed, on_pty_create)
              (create_session-Sends a (or_default shell "") (or_default cwd "") key req
                (create_refusal-Accepted b a _ _ r passed).allowed)
        | inr (error, refused) ↦
            rw (refused, on_pty_create)
              (send_to_browser-Sends (MayCause b r) e b _ r (λ c there. to_itself c _ there refl))
      ]

  -- Whatever a browser sends, the relay calls `send` only for the agent of a session that lists the
  -- browser, for an agent that the browser's user owns, or for the browser itself.
  pub handle_browser_message-Sends :
      (msg : BrowserMessage) → Sends (MayCause b r) r (handle_browser_message e b msg r)
  unfolding handle_browser_message
  handle_browser_message-Sends (BrowserMessage.ping timestamp) = Adds-refl _ r.out
  handle_browser_message-Sends (BrowserMessage.pty_create a shell cwd key req) =
      on_pty_create-Sends a shell cwd key req
  handle_browser_message-Sends (BrowserMessage.pty_data a s payload) = relay_activity-Sends a s _
  handle_browser_message-Sends (BrowserMessage.pty_resize a s cols rows hmac) =
      relay_to_agent-Sends a s _
  handle_browser_message-Sends (BrowserMessage.pty_close a s hmac) = relay_to_agent-Sends a s _
  handle_browser_message-Sends (BrowserMessage.pty_replay_request a s) = on_replay_request-Sends a s
  handle_browser_message-Sends (BrowserMessage.file_transfer_start a s t payload) =
      relay_activity-Sends a s _
  handle_browser_message-Sends (BrowserMessage.file_transfer_chunk a s t index payload) =
      relay_activity-Sends a s _
  handle_browser_message-Sends (BrowserMessage.file_transfer_end a s t payload) =
      relay_activity-Sends a s _
  handle_browser_message-Sends (BrowserMessage.other kind) = Adds-refl _ r.out

-- The agent and the session that a browser's message names, of all messages but `pty.create`.
abbrev pub target : BrowserMessage → Option (String × String)
target (BrowserMessage.pty_data a s payload) = some (a, s)
target (BrowserMessage.pty_resize a s cols rows hmac) = some (a, s)
target (BrowserMessage.pty_close a s hmac) = some (a, s)
target (BrowserMessage.pty_replay_request a s) = some (a, s)
target (BrowserMessage.file_transfer_start a s t payload) = some (a, s)
target (BrowserMessage.file_transfer_chunk a s t index payload) = some (a, s)
target (BrowserMessage.file_transfer_end a s t payload) = some (a, s)
target _ = none

module _ (e : Env) (b : String) (r : Relay) where
  relay_to_agent_foreign :
      (a s : String) (msg : RelayToAgentMessage)
      → session_of_browser b a s r ≡ none
      → relay_to_agent e b a s msg r ≡ r
  unfolding relay_to_agent
  relay_to_agent_foreign a s msg alien = rw (alien, relay_to_agent)

  relay_activity_foreign :
      (a s : String) (msg : RelayToAgentMessage)
      → session_of_browser b a s r ≡ none
      → relay_activity e b a s msg r ≡ r
  unfolding relay_activity
  relay_activity_foreign a s msg alien = rw (alien, relay_activity)

  on_replay_request_foreign :
      (a s : String) → session_of_browser b a s r ≡ none → on_replay_request e b a s r ≡ r
  unfolding on_replay_request
  on_replay_request_foreign a s alien = rw (alien, on_replay_request)

  handle_browser_message_unlisted :
      (a s : String) (msg : BrowserMessage)
      → target msg ≡ some (a, s)
      → session_of_browser b a s r ≡ none
      → handle_browser_message e b msg r ≡ r
  unfolding handle_browser_message
  handle_browser_message_unlisted a s (BrowserMessage.pty_data c t payload) named alien =
      ground (arith, relay_activity_foreign c t (RelayToAgentMessage.pty_data t payload))
  handle_browser_message_unlisted a s (BrowserMessage.pty_resize c t cols rows hmac) named alien =
      ground (
        arith,
        relay_to_agent_foreign c t
            (RelayToAgentMessage.pty_resize t (clamp_size cols) (clamp_size rows) hmac),
      )
  handle_browser_message_unlisted a s (BrowserMessage.pty_close c t hmac) named alien =
      ground (arith, relay_to_agent_foreign c t (RelayToAgentMessage.pty_close t hmac))
  handle_browser_message_unlisted a s (BrowserMessage.pty_replay_request c t) named alien =
      ground (arith, on_replay_request_foreign c t)
  handle_browser_message_unlisted a s (BrowserMessage.file_transfer_start c t id payload) named
        alien =
      ground
        (arith, relay_activity_foreign c t (RelayToAgentMessage.file_transfer_start t id payload))
  handle_browser_message_unlisted a s (BrowserMessage.file_transfer_chunk c t id n payload) named
        alien =
      ground
        (arith, relay_activity_foreign c t (RelayToAgentMessage.file_transfer_chunk t id n payload))
  handle_browser_message_unlisted a s (BrowserMessage.file_transfer_end c t id payload) named
        alien =
      ground
        (arith, relay_activity_foreign c t (RelayToAgentMessage.file_transfer_end t id payload))
  handle_browser_message_unlisted a s (BrowserMessage.ping time) named alien = refl
  handle_browser_message_unlisted a s (BrowserMessage.pty_create c sh cwd key req) named alien =
      absurd (ground arith)
  handle_browser_message_unlisted a s (BrowserMessage.other kind) named alien = refl

  foreign-session_of_browser :
      (a s : String)
      → ((m : SessionMapping)
          → get s r.sessions ≡ some m
          → m.agent_id ≡ a
          → has b m.browser_ids ≡ false)
      → session_of_browser b a s r ≡ none
  foreign-session_of_browser a s foreign = elim (Option-cases (session_of_browser b a s r)) [
    | inl none_ ↦ none_
    | inr (m, own) ↦
        let (found, same, inside) = session_of_browser-member b a s m r own in
        absurd (let outside = foreign m found same in cc)
  ]

  -- A message of a browser, other than a request for a session, that names an agent and a session leaves
  -- the relay as it is, nothing sent, logged or changed, if the table of sessions has no entry for the
  -- session, or one of another agent, or one that does not list the browser.
  pub handle_browser_message_foreign :
      (a s : String) (msg : BrowserMessage)
      → target msg ≡ some (a, s)
      → ((m : SessionMapping)
          → get s r.sessions ≡ some m
          → m.agent_id ≡ a
          → has b m.browser_ids ≡ false)
      → handle_browser_message e b msg r ≡ r
  handle_browser_message_foreign a s msg named foreign =
      handle_browser_message_unlisted a s msg named (foreign-session_of_browser a s foreign)
