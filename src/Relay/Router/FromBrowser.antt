-- ===== src/Relay/Router/FromBrowser.antt =====
-- packages/relay/src/router.ts, `handleBrowserMessage`: what the relay does with a browser's message.
use remote_ttys.Base.{
  String, Bool, false, not, ◌&&◌, Option, none, some, [], ◌∷◌, get, set, modify, size, count_if,
  has, add, leb, ◌==◌, if◌then◌else◌,
}
use remote_ttys.Base.Texts.{truthy, or_default, ◌<>◌}
use remote_ttys.Protocol.{BrowserMessage, RelayToAgentMessage, RelayToBrowserMessage}
use remote_ttys.Db
use remote_ttys.Relay.{BrowserConnection, SessionMapping, Relay, Env, audit}
use remote_ttys.Relay.BrowserHub.{get_browser, get_browser_user_id, send_to_browser}
use remote_ttys.Relay.AgentHub.{get_agent, send_to_agent, add_agent_session}
use remote_ttys.Relay.Router.Sessions.{
  max_sessions, max_sessions_per_agent, max_sessions_per_browser, touch,
}
use remote_ttys.Relay.Router.Validate.{is_bad_shell, is_bad_cwd, clamp_size}

-- How many sessions the agent, and the browser, have.
abbrev pub is_of_agent : String → SessionMapping → Bool
is_of_agent a m = m.agent_id == a

abbrev pub is_of_browser : String → SessionMapping → Bool
is_of_browser b m = has b m.browser_ids

-- `userId !== undefined && isAgentOwnedByUser(m.agentId, userId)`.
unfoldable pub may_open : String → String → Relay → Bool
may_open b a r = elim (get_browser_user_id b r) [
  | none ↦ false
  | some user ↦ Db.is_agent_owned_by_user a user r.db
]

-- The checks of `pty.create` in their order: the text of the first error, or `none`.
unfoldable pub create_refusal : String → String → String → String → Relay → Option String
create_refusal b a shell cwd r = elim (get_agent a r) [
  | none ↦ some "Agent not found or offline"
  | some agent ↦
      if not (may_open b a r)
      then some "Permission denied"
      else if is_bad_shell shell
      then some "Invalid shell path"
      else if is_bad_cwd cwd
      then some "Invalid working directory"
      else if leb max_sessions (size r.sessions)
      then some "Maximum total sessions reached"
      else if leb max_sessions_per_agent (count_if (is_of_agent a) r.sessions)
      then some "Maximum sessions for this agent reached"
      else if leb max_sessions_per_browser (count_if (is_of_browser b) r.sessions)
      then some "Maximum sessions per browser reached"
      else none
]

unfoldable pub register_session : Env → String → String → Relay → Relay
register_session e b a r = record r {
  sessions =
      set e.uuid
        (record { agent_id = a; browser_ids = b ∷ []; created_at = e.now; last_activity = e.now })
        r.sessions;
}

unfoldable pub add_subscription : String → BrowserConnection → BrowserConnection
add_subscription s c = record c { subscribed_sessions = add s c.subscribed_sessions }

-- `browser.subscribedSessions.add(sessionId)` on the stored object.
unfoldable pub subscribe : String → String → Relay → Relay
subscribe b s r = record r { browsers = modify b (add_subscription s) r.browsers }

unfoldable pub username_of : String → Relay → Option String
username_of b r = elim (get_browser b r) [ none ↦ none | some conn ↦ some conn.username ]

-- `sessions.get(sessionId)`, if the session is of this agent and this browser is in it.
unfoldable pub session_of_browser : String → String → String → Relay → Option SessionMapping
session_of_browser b a s r = elim (get s r.sessions) [
  | none ↦ none
  | some m ↦ if m.agent_id == a && has b m.browser_ids then some m else none
]

module _ (e : Env) (b : String) where
  -- What follows the checks: the session's id is the fresh uuid.
  unfoldable pub create_session : String → String → String → String → Option String → Relay → Relay
  create_session a shell cwd key req r =
      let r1 = register_session e b a r in
      let r2 = subscribe b e.uuid r1 in
      let r3 = add_agent_session a e.uuid r2 in
      let r4 =
        send_to_agent e a (RelayToAgentMessage.pty_create e.uuid shell cwd key (truthy req)) r3 in
      audit e "session_create" (username_of b r4) ("sessionId=" <> e.uuid <> ", agentId=" <> a) r4

  unfoldable pub on_pty_create :
      String → Option String → Option String → String → Option String → Relay → Relay
  on_pty_create a shell cwd key req r =
      elim (create_refusal b a (or_default shell "") (or_default cwd "") r) [
        | some error ↦
            send_to_browser e b (RelayToBrowserMessage.pty_create_error a error (truthy req)) r
        | none ↦ create_session a (or_default shell "") (or_default cwd "") key req r
      ]

  -- A message that is passed on to the agent of the browser's session.
  unfoldable pub relay_to_agent : String → String → RelayToAgentMessage → Relay → Relay
  relay_to_agent a s msg r = elim (session_of_browser b a s r) [
    | none ↦ r
    | some m ↦ send_to_agent e a msg r
  ]

  -- The same, which counts as activity of the session.
  unfoldable pub relay_activity : String → String → RelayToAgentMessage → Relay → Relay
  relay_activity a s msg r = elim (session_of_browser b a s r) [
    | none ↦ r
    | some m ↦ send_to_agent e a msg (touch e s r)
  ]

  unfoldable pub on_replay_request : String → String → Relay → Relay
  on_replay_request a s r = elim (session_of_browser b a s r) [
    | none ↦ r
    | some m ↦ send_to_agent e a (RelayToAgentMessage.pty_replay_request s) (subscribe b s r)
  ]

  unfoldable pub handle_browser_message : BrowserMessage → Relay → Relay
  handle_browser_message (BrowserMessage.ping timestamp) r = r
  handle_browser_message (BrowserMessage.pty_create a shell cwd key req) r =
      on_pty_create a shell cwd key req r
  handle_browser_message (BrowserMessage.pty_data a s payload) r =
      relay_activity a s (RelayToAgentMessage.pty_data s payload) r
  handle_browser_message (BrowserMessage.pty_resize a s cols rows hmac) r =
      relay_to_agent a s (RelayToAgentMessage.pty_resize s (clamp_size cols) (clamp_size rows) hmac)
        r
  handle_browser_message (BrowserMessage.pty_close a s hmac) r =
      relay_to_agent a s (RelayToAgentMessage.pty_close s hmac) r
  handle_browser_message (BrowserMessage.pty_replay_request a s) r = on_replay_request a s r
  handle_browser_message (BrowserMessage.file_transfer_start a s t payload) r =
      relay_activity a s (RelayToAgentMessage.file_transfer_start s t payload) r
  handle_browser_message (BrowserMessage.file_transfer_chunk a s t index payload) r =
      relay_activity a s (RelayToAgentMessage.file_transfer_chunk s t index payload) r
  handle_browser_message (BrowserMessage.file_transfer_end a s t payload) r =
      relay_activity a s (RelayToAgentMessage.file_transfer_end s t payload) r
  handle_browser_message (BrowserMessage.other type) r = r
