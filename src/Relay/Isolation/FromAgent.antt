-- ===== src/Relay/Isolation/FromAgent.antt =====
-- packages/relay/src/router.ts, `handleAgentMessage`: an agent reaches only the browsers of its own
-- sessions.
use remote_ttys.Base.{
  String, true, false, Option, none, some, List, [], ◌∷◌, get, has, has_key, ◌≡◌, ◌≢◌, refl, inl,
  inr, Option-cases, arith, eq_iff, ◌∙◌,
}
use remote_ttys.Base.Ints.{ℤ}
use remote_ttys.Base.Texts.{truthy, show_ℤ, ◌<>◌}
use remote_ttys.Protocol.{AgentMessage, RelayToBrowserMessage}
use remote_ttys.Relay.{
  BrowserConnection, SessionMapping, Output, to_browser, Relay, Env, emit, audit,
}
use remote_ttys.Relay.AgentHub.{delete_agent_session}
use remote_ttys.Relay.BrowserHub.{
  send_to_session_subscribers, send_to_browser, unsubscribe_all_from_session,
}
use remote_ttys.Relay.Fields.{send_to_browser-SameTables}
use remote_ttys.Relay.Router.Sessions.{session_of_agent, destroy_session, drop_session, touch}
use remote_ttys.Relay.Router.FromAgent.{
  on_pty_created, on_agent_data, on_exited, forward, on_error, handle_agent_message, send_created,
  send_create_error,
}
use remote_ttys.Relay.Reach.{Inv}
use remote_ttys.Relay.Outputs.{
  Sends, Adds-refl, Adds-trans, Adds-one, send_to_browser-Sends, send_to_session_subscribers-Sends,
}

-- A message to a browser that the mapping of the session lists, the session being the agent's.
pub record ToMember (a s : String) (r : Relay) (o : Output) : Type 0 where
  pub mapping : SessionMapping
  pub browser : String
  pub connection : BrowserConnection
  pub message : RelayToBrowserMessage
  pub found : get s r.sessions ≡ some mapping
  pub of_agent : mapping.agent_id ≡ a
  pub lists : has browser mapping.browser_ids ≡ true
  pub connected : get browser r.browsers ≡ some connection
  pub sent : o ≡ to_browser connection.ws message

same_id : {s t : String} → some s ≡ some t → s ≡ t
same_id p = ground arith

-- The session that a message names.
abbrev pub session_id : AgentMessage → Option String
session_id (AgentMessage.pty_created s key sig req) = some s
session_id (AgentMessage.pty_data s payload) = some s
session_id (AgentMessage.pty_exited s code) = some s
session_id (AgentMessage.pty_replay s payload) = some s
session_id (AgentMessage.pty_error s error req) = some s
session_id (AgentMessage.file_transfer_ack s t payload) = some s
session_id (AgentMessage.file_transfer_progress s t payload) = some s
session_id (AgentMessage.file_transfer_complete s t payload) = some s
session_id _ = none

pub session_of_agent-found :
    (a s : String) (m : SessionMapping) (r : Relay)
    → session_of_agent a s r ≡ some m
    → (get s r.sessions ≡ some m) × (m.agent_id ≡ a)
unfolding session_of_agent
session_of_agent-found a s m r found = elim (Option-cases (get s r.sessions)) [
  | inl gone ↦ absurd (ground arith)
  | inr (v, there) ↦ ground (arith, eq_iff v.agent_id a)
]

out-destroy_session :
    (e : Env) (s a detail : String) (r : Relay) → (destroy_session e s a detail false r).out ≡ r.out
unfolding destroy_session audit unsubscribe_all_from_session drop_session delete_agent_session
out-destroy_session e s a detail r = refl

module _ (e : Env) (a s : String) (r : Relay) (v : Inv r) (m : SessionMapping)
    (own : session_of_agent a s r ≡ some m) where
  to_member :
      (b : String) (c : BrowserConnection) (msg : RelayToBrowserMessage)
      → get b r.browsers ≡ some c
      → has b m.browser_ids ≡ true
      → ToMember a s r (to_browser c.ws msg)
  to_member b c msg connected lists =
      let found = session_of_agent-found a s m r own in
      record {
        mapping = m;
        browser = b;
        connection = c;
        message = msg;
        found = found.0;
        of_agent = found.1;
        lists = lists;
        connected = connected;
        sent = refl;
      }

  -- A subscriber is in the mapping.
  to_subscriber :
      (b : String) (c : BrowserConnection) (msg : RelayToBrowserMessage)
      → get b r.browsers ≡ some c
      → has s c.subscribed_sessions ≡ true
      → ToMember a s r (to_browser c.ws msg)
  unfolding has_key
  to_subscriber b c msg connected hit =
      to_member b c msg connected
        (ground (arith, v.mirrors b s, session_of_agent-found a s m r own))

  subscribers-Sends :
      (msg : RelayToBrowserMessage)
      → Sends (ToMember a s r) r (send_to_session_subscribers e s msg r)
  subscribers-Sends msg =
      send_to_session_subscribers-Sends (ToMember a s r) e s msg r v.unique.browsers
        (λ b c. to_subscriber b c msg)

  created-Sends :
      (msg : RelayToBrowserMessage) (bs : List String) (q : Relay)
      → q.browsers ≡ r.browsers
      → ((b : String) → has b bs ≡ true → has b m.browser_ids ≡ true)
      → Sends (ToMember a s r) q (send_created msg bs q)
  unfolding send_created emit has
  created-Sends msg [] q same listed = Adds-refl _ q.out
  created-Sends msg (b ∷ bs) q same listed = elim (Option-cases (get b q.browsers)) [
    | inl gone ↦
        rw (gone, send_created) (created-Sends msg bs q same (λ d h. listed d (ground arith)))
    | inr (c, there) ↦
        rw (there, send_created)
          (Adds-trans _ _ _ _
            (Adds-one _ (to_browser c.ws msg) q.out
              (to_member b c msg (rw same at there) (listed b (ground (arith, eq_iff b b)))))
            (created-Sends msg bs (emit (to_browser c.ws msg) q) same
              (λ d h. listed d (ground arith))))
  ]

  errors-Sends :
      (msg : RelayToBrowserMessage) (bs : List String) (q : Relay)
      → q.browsers ≡ r.browsers
      → ((b : String) → has b bs ≡ true → has b m.browser_ids ≡ true)
      → Sends (ToMember a s r) q (send_create_error e msg bs q)
  unfolding send_create_error has
  errors-Sends msg [] q same listed = Adds-refl _ q.out
  errors-Sends msg (b ∷ bs) q same listed =
      Adds-trans _ _ _ _
        (send_to_browser-Sends (ToMember a s r) e b msg q
          (λ c there. to_member b c msg (rw same at there) (listed b (ground (arith, eq_iff b b)))))
        (errors-Sends msg bs (send_to_browser e b msg q)
          ((send_to_browser-SameTables e b msg q).same_browsers ∙ same)
          (λ d h. listed d (ground arith)))

  exited-Sends : (code : ℤ) → Sends (ToMember a s r) r (on_exited e a s code r)
  unfolding on_exited
  exited-Sends code =
      rw (own, on_exited)
        (rw
          (out-destroy_session e s a ("sessionId=" <> s <> ", exitCode=" <> show_ℤ code)
            (send_to_session_subscribers e s (RelayToBrowserMessage.pty_exited a s code) r))
          (subscribers-Sends (RelayToBrowserMessage.pty_exited a s code)))

  error-Sends :
      (error : String) (req : Option String) → Sends (ToMember a s r) r (on_error e a s error req r)
  unfolding on_error
  error-Sends error req = elim (Option-cases (truthy req)) [
    | inl late ↦
        rw (own, on_error)
          (rw (late, on_error) (subscribers-Sends (RelayToBrowserMessage.pty_error a s error)))
    | inr (id, early) ↦
        rw (own, on_error)
          (rw (early, on_error)
            (rw
              (out-destroy_session e s a ("sessionId=" <> s <> ", reason=create_failed_on_agent") (
                send_create_error e (RelayToBrowserMessage.pty_create_error a error (some id))
                  m.browser_ids r))
              (errors-Sends _ m.browser_ids r refl (λ b h. h))))
  ]

  -- A message that the session's own agent sends.
  own-Sends :
      (msg : AgentMessage)
      → session_id msg ≡ some s
      → Sends (ToMember a s r) r (handle_agent_message e a msg r)
  unfolding handle_agent_message on_pty_created on_agent_data forward touch
  own-Sends (AgentMessage.pty_created t key sig req) named =
      rw (same_id named)
        (rw (own, on_pty_created) (created-Sends _ m.browser_ids r refl (λ b h. h)))
  own-Sends (AgentMessage.pty_data t payload) named = rw (same_id named) (
      rw (own, on_agent_data)
        (send_to_session_subscribers-Sends (ToMember a s r) e s _ (touch e s r) v.unique.browsers
          (λ b c. to_subscriber b c (RelayToBrowserMessage.pty_data a s payload))))
  own-Sends (AgentMessage.pty_exited t code) named = rw (same_id named) (exited-Sends code)
  own-Sends (AgentMessage.pty_replay t payload) named =
      rw (same_id named) (rw (own, forward) (subscribers-Sends _))
  own-Sends (AgentMessage.pty_error t error req) named = rw (same_id named) (error-Sends error req)
  own-Sends (AgentMessage.file_transfer_ack t id payload) named =
      rw (same_id named) (rw (own, forward) (subscribers-Sends _))
  own-Sends (AgentMessage.file_transfer_progress t id payload) named =
      rw (same_id named) (rw (own, forward) (subscribers-Sends _))
  own-Sends (AgentMessage.file_transfer_complete t id payload) named =
      rw (same_id named) (rw (own, forward) (subscribers-Sends _))
  own-Sends (AgentMessage.hello name os fp key caps) named = absurd (ground arith)
  own-Sends AgentMessage.heartbeat named = absurd (ground arith)
  own-Sends (AgentMessage.pong id time) named = absurd (ground arith)
  own-Sends (AgentMessage.other kind) named = absurd (ground arith)

module _ (e : Env) (a s : String) (r : Relay) where
  handle_agent_message_unowned :
      (msg : AgentMessage)
      → session_id msg ≡ some s
      → session_of_agent a s r ≡ none
      → handle_agent_message e a msg r ≡ r
  unfolding handle_agent_message on_pty_created on_agent_data forward on_exited on_error
  handle_agent_message_unowned (AgentMessage.pty_created t key sig req) named alien =
      rw (same_id named) (rw (alien, on_pty_created))
  handle_agent_message_unowned (AgentMessage.pty_data t payload) named alien =
      rw (same_id named) (rw (alien, on_agent_data))
  handle_agent_message_unowned (AgentMessage.pty_exited t code) named alien =
      rw (same_id named) (rw (alien, on_exited))
  handle_agent_message_unowned (AgentMessage.pty_replay t payload) named alien =
      rw (same_id named) (rw (alien, forward))
  handle_agent_message_unowned (AgentMessage.pty_error t error req) named alien =
      rw (same_id named) (rw (alien, on_error))
  handle_agent_message_unowned (AgentMessage.file_transfer_ack t id payload) named alien =
      rw (same_id named) (rw (alien, forward))
  handle_agent_message_unowned (AgentMessage.file_transfer_progress t id payload) named alien =
      rw (same_id named) (rw (alien, forward))
  handle_agent_message_unowned (AgentMessage.file_transfer_complete t id payload) named alien =
      rw (same_id named) (rw (alien, forward))
  handle_agent_message_unowned msg named alien = absurd (ground arith)

  foreign-session_of_agent :
      ((m : SessionMapping) → get s r.sessions ≡ some m → m.agent_id ≢ a)
      → session_of_agent a s r ≡ none
  foreign-session_of_agent foreign = elim (Option-cases (session_of_agent a s r)) [
    | inl none_ ↦ none_
    | inr (m, own) ↦
        let (found, same) = session_of_agent-found a s m r own in absurd (foreign m found same)
  ]

  -- A message of an agent that names a session leaves the relay as it is, nothing sent, logged or
  -- changed, if the table of sessions has no entry for the session or one of another agent.
  pub handle_agent_message_foreign :
      (msg : AgentMessage)
      → session_id msg ≡ some s
      → ((m : SessionMapping) → get s r.sessions ≡ some m → m.agent_id ≢ a)
      → handle_agent_message e a msg r ≡ r
  handle_agent_message_foreign msg named foreign =
      handle_agent_message_unowned msg named (foreign-session_of_agent foreign)

  -- Where the invariant holds: whatever an agent says about a session, `send` is called only for connections of browsers that
  -- the mapping of the session lists, and only if the session is the agent's own.
  pub handle_agent_message-Sends :
      (msg : AgentMessage)
      → Inv r
      → session_id msg ≡ some s
      → Sends (ToMember a s r) r (handle_agent_message e a msg r)
  handle_agent_message-Sends msg v named = elim (Option-cases (session_of_agent a s r)) [
    | inl alien ↦
        rw (handle_agent_message_unowned msg named alien) (Adds-refl (ToMember a s r) r.out)
    | inr (m, own) ↦ own-Sends e a s r v m own msg named
  ]
