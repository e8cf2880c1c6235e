-- ===== src/Relay/Moves/FromBrowser.antt =====
-- The moves of a browser's message: activity, one more subscription, a new session, or none.
use remote_ttys.Base.{
  ◌<◌, String, true, false, Option, none, some, [], get, has_key, size, count_if, ◌≡◌, refl, inl,
  inr, Option-cases, Bool-cases, arith, eq_iff, eq_refl, get-modify, ◌∷◌, any, eqb, ◌⊎◌, ◌==◌,
}
use remote_ttys.Base.Texts.{or_default, truthy, codes}
use remote_ttys.Protocol.{BrowserMessage, RelayToAgentMessage}
use remote_ttys.Relay.{AgentConnection, SessionMapping, Relay, Env, emit, audit, to_agent}
use remote_ttys.Relay.BrowserHub.{get_browser_user_id}
use remote_ttys.Relay.AgentHub.{get_agent, send_to_agent, add_agent_session, add_session}
use remote_ttys.Relay.Fields.{send_to_agent-SameTables, send_to_browser-SameTables}
use remote_ttys.Relay.Sharing.{member}
use remote_ttys.Relay.Router.Validate.{is_bad_shell, is_bad_cwd, is_shell_special}
use remote_ttys.Relay.Router.Sessions.{
  max_sessions, max_sessions_per_agent, max_sessions_per_browser, touch,
}
use remote_ttys.Relay.Router.FromBrowser.{
  is_of_agent, is_of_browser, may_open, create_refusal, register_session, subscribe, create_session,
  on_pty_create, session_of_browser, relay_to_agent, relay_activity, on_replay_request,
  handle_browser_message,
}
use remote_ttys.Relay.Moves.{
  Opens, Moves, done, step, touched, same, opened, resubscribed, one, one_same,
}

-- What a request that passes every check has shown.
pub record Accepted (b a shell cwd : String) (r : Relay) : Type 0 where
  pub online : has_key a r.agents ≡ true
  pub allowed : may_open b a r ≡ true
  pub good_shell : is_bad_shell shell ≡ false
  pub good_cwd : is_bad_cwd cwd ≡ false
  pub few_sessions : size r.sessions < max_sessions
  pub few_of_agent : count_if (is_of_agent a) r.sessions < max_sessions_per_agent
  pub few_of_browser : count_if (is_of_browser b) r.sessions < max_sessions_per_browser

-- A request that is not refused comes from a connected browser whose user owns the agent, has a
-- shell and a directory that pass the tests, and leaves room under the three limits.
pub create_refusal-Accepted :
    (b a shell cwd : String) (r : Relay)
    → create_refusal b a shell cwd r ≡ none
    → Accepted b a shell cwd r
unfolding create_refusal get_agent has_key
create_refusal-Accepted b a shell cwd r passed = ground arith

good_shell-plain :
    (shell : String) → is_bad_shell shell ≡ false → any is_shell_special (codes shell) ≡ false
unfolding is_bad_shell
good_shell-plain shell good = elim (Bool-cases (shell == "")) [
  | inl empty ↦ rw ((eq_iff shell "").0 empty) refl
  | inr full ↦ ground arith
]

good_cwd-plain : (cwd : String) → is_bad_cwd cwd ≡ false → any (eqb 0) (codes cwd) ≡ false
unfolding is_bad_cwd
good_cwd-plain cwd good = elim (Bool-cases (cwd == "")) [
  | inl empty ↦ rw ((eq_iff cwd "").0 empty) refl
  | inr full ↦ ground arith
]

pub may_open-has_key :
    (b a : String) (r : Relay) → may_open b a r ≡ true → has_key b r.browsers ≡ true
unfolding may_open get_browser_user_id has_key
may_open-has_key b a r allowed = ground arith

pub session_of_browser-member :
    (b a s : String) (m : SessionMapping) (r : Relay)
    → session_of_browser b a s r ≡ some m
    → (get s r.sessions ≡ some m) × (m.agent_id ≡ a) × (member b s r ≡ true)
unfolding session_of_browser
session_of_browser-member b a s m r found = elim (Option-cases (get s r.sessions)) [
  | inl gone ↦ absurd (ground arith)
  | inr (v, there) ↦ ground (arith, eq_iff v.agent_id a)
]

-- What a message to an agent adds to what is sent; noting a session on a connection keeps its socket.
send_to_agent-asked :
    (e : Env) (a s : String) (msg : RelayToAgentMessage) (r : Relay)
    → ((send_to_agent e a msg (add_agent_session a s r)).out ≡ r.out)
      ⊎ (c : AgentConnection) × (get a r.agents ≡ some c)
        × ((send_to_agent e a msg (add_agent_session a s r)).out ≡ to_agent c.ws msg ∷ r.out)
unfolding send_to_agent add_agent_session add_session emit
send_to_agent-asked e a s msg r = elim (Option-cases (get a r.agents)) [
  | inl gone ↦ inl (ground (arith, get-modify a a (add_session s) r.agents, eq_refl a))
  | inr (c, there) ↦ elim (Bool-cases (e.is_open c.ws)) [
    | inl open_ ↦ inr (c, there, ground (arith, get-modify a a (add_session s) r.agents, eq_refl a))
    | inr shut ↦ inl (ground (arith, get-modify a a (add_session s) r.agents, eq_refl a))
  ]
]

module _ (e : Env) (b : String) where
  pub create_session-Opens :
      (a shell cwd key : String) (req : Option String) (r : Relay)
      → Accepted b a shell cwd r
      → get e.uuid r.sessions ≡ none
      → Opens b a e.uuid r (create_session e b a shell cwd key req r)
  unfolding create_session register_session subscribe add_agent_session send_to_agent emit audit
  create_session-Opens a shell cwd key req r ok fresh = record {
    mapping = record {
      agent_id = a;
      browser_ids = b ∷ [];
      created_at = e.now;
      last_activity = e.now;
    };
    of_agent = refl;
    of_browser = refl;
    fresh = fresh;
    connected = may_open-has_key b a r ok.allowed;
    allowed = ok.allowed;
    few_sessions = ok.few_sessions;
    few_of_agent = ok.few_of_agent;
    few_of_browser = ok.few_of_browser;
    online = ok.online;
    shell = shell;
    cwd = cwd;
    public_key = key;
    request = truthy req;
    plain_shell = good_shell-plain shell ok.good_shell;
    plain_cwd = good_cwd-plain cwd ok.good_cwd;
    asked = send_to_agent-asked e a e.uuid _ (subscribe b e.uuid (register_session e b a r));
    entered = ground arith;
    subscribed = ground arith;
  }

  on_pty_create-Moves :
      (a : String) (shell cwd : Option String) (key : String) (req : Option String) (r : Relay)
      → get e.uuid r.sessions ≡ none
      → Moves r (on_pty_create e b a shell cwd key req r)
  unfolding on_pty_create
  on_pty_create-Moves a shell cwd key req r fresh =
      elim (Option-cases (create_refusal b a (or_default shell "") (or_default cwd "") r)) [
        | inl passed ↦
            rw (passed, on_pty_create)
              (one (
                opened b a e.uuid (
                  create_session-Opens a (or_default shell "") (or_default cwd "") key req r
                    (create_refusal-Accepted b a _ _ r passed) fresh)))
        | inr (error, refused) ↦
            rw (refused, on_pty_create) (one_same (send_to_browser-SameTables e b _ r))
      ]

  relay_to_agent-Moves :
      (a s : String) (msg : RelayToAgentMessage) (r : Relay)
      → Moves r (relay_to_agent e b a s msg r)
  unfolding relay_to_agent
  relay_to_agent-Moves a s msg r = elim (Option-cases (session_of_browser b a s r)) [
    | inl alien ↦ rw (alien, relay_to_agent) done
    | inr (m, found) ↦ rw (found, relay_to_agent) (one_same (send_to_agent-SameTables e a msg r))
  ]

  relay_activity-Moves :
      (a s : String) (msg : RelayToAgentMessage) (r : Relay)
      → Moves r (relay_activity e b a s msg r)
  unfolding relay_activity touch
  relay_activity-Moves a s msg r = elim (Option-cases (session_of_browser b a s r)) [
    | inl alien ↦ rw (alien, relay_activity) done
    | inr (m, found) ↦
        rw (found, relay_activity)
          (step (one {r' = touch e s r} (touched s e.now refl refl))
            (same (send_to_agent-SameTables e a msg (touch e s r))))
  ]

  on_replay_request-Moves : (a s : String) (r : Relay) → Moves r (on_replay_request e b a s r)
  unfolding on_replay_request subscribe
  on_replay_request-Moves a s r = elim (Option-cases (session_of_browser b a s r)) [
    | inl alien ↦ rw (alien, on_replay_request) done
    | inr (m, found) ↦
        rw (found, on_replay_request)
          (step
            (one {r' = subscribe b s r}
              (resubscribed b s (session_of_browser-member b a s m r found).2 refl refl))
            (same (send_to_agent-SameTables e a _ (subscribe b s r))))
  ]

  pub handle_browser_message-Moves :
      (msg : BrowserMessage) (r : Relay)
      → get e.uuid r.sessions ≡ none
      → Moves r (handle_browser_message e b msg r)
  unfolding handle_browser_message
  handle_browser_message-Moves (BrowserMessage.ping timestamp) r fresh = done
  handle_browser_message-Moves (BrowserMessage.pty_create a shell cwd key req) r fresh =
      on_pty_create-Moves a shell cwd key req r fresh
  handle_browser_message-Moves (BrowserMessage.pty_data a s payload) r fresh =
      relay_activity-Moves a s _ r
  handle_browser_message-Moves (BrowserMessage.pty_resize a s cols rows hmac) r fresh =
      relay_to_agent-Moves a s _ r
  handle_browser_message-Moves (BrowserMessage.pty_close a s hmac) r fresh =
      relay_to_agent-Moves a s _ r
  handle_browser_message-Moves (BrowserMessage.pty_replay_request a s) r fresh =
      on_replay_request-Moves a s r
  handle_browser_message-Moves (BrowserMessage.file_transfer_start a s t payload) r fresh =
      relay_activity-Moves a s _ r
  handle_browser_message-Moves (BrowserMessage.file_transfer_chunk a s t index payload) r fresh =
      relay_activity-Moves a s _ r
  handle_browser_message-Moves (BrowserMessage.file_transfer_end a s t payload) r fresh =
      relay_activity-Moves a s _ r
  handle_browser_message-Moves (BrowserMessage.other type) r fresh = done
