-- ===== src/Relay/Accounts.antt =====
-- What the sockets and the timers leave alone: the tables of users and of tokens.
pub mod Events
use remote_ttys.Base.{
  ℕ, String, Bool, true, false, Option, none, some, List, [], ◌∷◌, Map, get, ◌≡◌, refl, ◌∙◌, inl,
  inr, Bool-cases, Option-cases, arith, if◌then◌else◌, ltb, ◌==◌,
}
use remote_ttys.Base.Ints.{ℤ}
use remote_ttys.Base.Texts.{truthy, ◌<>◌}
use remote_ttys.Relay.Router.FromAgent
use remote_ttys.Relay.{Socket}
use remote_ttys.Relay.AgentSocket.{
  Hello, connect_agent, reject, register, close_old, record_fingerprint, accept, on_first,
  touch_agent, set_latency, on_pong, on_later, dispatch, agent_frame, remove_agent, agent_close,
  set_ping, clear_latency, notify_lost, ping_one, ping_from, ping_agents, is_mismatch, id_or,
  max_agent_msg_size,
}
use remote_ttys.Relay.AgentSocket
use remote_ttys.Relay.BrowserSocket.{
  max_browser_msg_size, connect_browser, on_message, browser_frame, browser_close,
}
use remote_ttys.Relay.Step.{
  Event, agent_connects, agent_sends, agent_closes, browser_connects, browser_sends, browser_closes,
  ping_timer, sweep_timer, step,
}
use remote_ttys.Protocol.{
  RelayToAgentMessage, RelayToBrowserMessage, AgentMessage, BrowserMessage, Frame,
}
use remote_ttys.Db.{
  Db, UserRow, TokenRow, AgentRow, upsert_agent, upsert_row, set_agent_online,
  set_agent_fingerprint, find_agent_by_token_and_name,
}
use remote_ttys.Relay.{Relay, Env, SessionMapping, AgentLink, PreAuth, AgentConnection, emit, audit}
use remote_ttys.Relay.AgentHub.{send_to_agent, delete_agent_session, add_agent_session, get_agent}
use remote_ttys.Relay.BrowserHub.{
  send_to_browser, broadcast_to_user_browsers, send_to_session_subscribers,
  unsubscribe_all_from_session,
}
use remote_ttys.Relay.Router.Sessions.{
  broadcast_to_owner, destroy_session, drop_session, touch, sweep_from, sweep, session_of_agent,
}
use remote_ttys.Relay.Router.FromAgent.{
  send_created, send_create_error, handle_agent_message, on_hello, on_pty_created, on_agent_data,
  on_exited, forward, on_error,
}
use remote_ttys.Relay.Router.FromBrowser.{
  handle_browser_message, on_pty_create, create_session, relay_to_agent, relay_activity,
  on_replay_request, register_session, subscribe, session_of_browser,
}
use remote_ttys.Relay.Router.Disconnect.{
  handle_browser_disconnect, handle_agent_disconnect, handle_latency_update, leave_from,
  leave_session, end_from,
}

pub record SameAccounts (d d' : Db) : Type 0 where
  pub users : d'.users ≡ d.users
  pub next_user : d'.next_user ≡ d.next_user
  pub agent_tokens : d'.agent_tokens ≡ d.agent_tokens
  pub next_token : d'.next_token ≡ d.next_token

pub SameAccounts-refl : (d : Db) → SameAccounts d d
SameAccounts-refl d = record {
  users = refl;
  next_user = refl;
  agent_tokens = refl;
  next_token = refl;
}

pub SameAccounts-trans :
    (d d' d'' : Db) → SameAccounts d d' → SameAccounts d' d'' → SameAccounts d d''
SameAccounts-trans d d' d'' h k = record {
  users = k.users ∙ h.users;
  next_user = k.next_user ∙ h.next_user;
  agent_tokens = k.agent_tokens ∙ h.agent_tokens;
  next_token = k.next_token ∙ h.next_token;
}

pub upsert_agent-SameAccounts :
    (t id : String) (name os : Option String) (token : String) (db db' : Db)
    → upsert_agent t id name os token db ≡ some db'
    → SameAccounts db db'
unfolding upsert_agent upsert_row
upsert_agent-SameAccounts t id none os token db db' stored = absurd cc
upsert_agent-SameAccounts t id (some n) none token db db' stored = absurd cc
upsert_agent-SameAccounts t id (some n) (some o) token db db' stored = ground arith

-- Of a callback that may throw: what it does when it does not.
abbrev pub AfterDb : Relay → Option Relay → Type 0
AfterDb r none = Unit
AfterDb r (some r') = SameAccounts r.db r'.db

module _ (e : Env) where
  pub destroy_session-SameAccounts :
      (s a detail : String) (notify : Bool) (r : Relay)
      → SameAccounts r.db (destroy_session e s a detail notify r).db
  unfolding destroy_session send_to_agent emit delete_agent_session drop_session
      unsubscribe_all_from_session audit
  destroy_session-SameAccounts s a detail notify r = ground arith

  pub sweep_from-SameAccounts :
      (m : Map SessionMapping) (r r' : Relay)
      → SameAccounts r.db r'.db
      → SameAccounts r.db (sweep_from e m r').db
  unfolding sweep_from
  sweep_from-SameAccounts [] r r' h = h
  sweep_from-SameAccounts ((s, m) ∷ rest) r r' h = sweep_from-SameAccounts rest r _ (
      ground (
        arith,
        SameAccounts-trans r.db r'.db _ h (
            destroy_session-SameAccounts s m.agent_id ("sessionId=" <> s <> ", reason=ttl_expired")
              true r'),
      ))

  pub broadcast_to_owner-SameAccounts :
      (token : String) (msg : RelayToBrowserMessage) (r : Relay)
      → SameAccounts r.db (broadcast_to_owner e token msg r).db
  unfolding broadcast_to_owner broadcast_to_user_browsers
  broadcast_to_owner-SameAccounts token msg r = ground arith

  pub send_created-SameAccounts :
      (msg : RelayToBrowserMessage) (bs : List String) (r : Relay)
      → SameAccounts r.db (send_created msg bs r).db
  unfolding send_created emit
  send_created-SameAccounts msg [] r = SameAccounts-refl r.db
  send_created-SameAccounts msg (b ∷ bs) r = elim (Option-cases (get b r.browsers)) [
    | inl gone ↦ rw (gone, send_created) (send_created-SameAccounts msg bs r)
    | inr (c, there) ↦ rw (there, send_created) (send_created-SameAccounts msg bs _)
  ]

  pub send_create_error-SameAccounts :
      (msg : RelayToBrowserMessage) (bs : List String) (r : Relay)
      → SameAccounts r.db (send_create_error e msg bs r).db
  unfolding send_create_error send_to_browser emit
  send_create_error-SameAccounts msg [] r = SameAccounts-refl r.db
  send_create_error-SameAccounts msg (b ∷ bs) r =
      ground (arith, send_create_error-SameAccounts msg bs (send_to_browser e b msg r))

  pub on_error-SameAccounts :
      (a s error : String) (req : Option String) (r : Relay)
      → SameAccounts r.db (on_error e a s error req r).db
  unfolding on_error send_to_session_subscribers
  on_error-SameAccounts a s error req r = elim (Option-cases (session_of_agent a s r)) [
    | inl none_ ↦ rw (none_, on_error) (SameAccounts-refl r.db)
    | inr (m, there) ↦ elim (Option-cases (truthy req)) [
      | inl plain ↦ rw (there, on_error) (rw (plain, on_error) (SameAccounts-refl r.db))
      | inr (id, asked) ↦
          rw (there, on_error)
            (rw (asked, on_error)
              (SameAccounts-trans _ _ _
                (send_create_error-SameAccounts
                  (RelayToBrowserMessage.pty_create_error a error (some id)) m.browser_ids r)
                (destroy_session-SameAccounts s a _ false _)))
    ]
  ]

  pub on_exited-SameAccounts :
      (a s : String) (code : ℤ) (r : Relay) → SameAccounts r.db (on_exited e a s code r).db
  unfolding on_exited send_to_session_subscribers
  on_exited-SameAccounts a s code r = elim (Option-cases (session_of_agent a s r)) [
    | inl none_ ↦ rw (none_, on_exited) (SameAccounts-refl r.db)
    | inr (m, there) ↦
        rw (there, on_exited)
          (SameAccounts-trans _ _ _ (SameAccounts-refl r.db)
            (destroy_session-SameAccounts s a _ false _))
  ]

  pub on_hello-SameAccounts :
      (a : String) (name os key : Option String) (caps : Option (List String)) (r : Relay)
      → SameAccounts r.db (FromAgent.on_hello e a name os key caps r).db
  unfolding FromAgent.on_hello broadcast_to_owner broadcast_to_user_browsers
  on_hello-SameAccounts a name os key caps r = ground arith

  pub handle_agent_message-SameAccounts :
      (a : String) (msg : AgentMessage) (r : Relay)
      → SameAccounts r.db (handle_agent_message e a msg r).db
  unfolding handle_agent_message on_pty_created on_agent_data forward send_to_session_subscribers
      touch
  handle_agent_message-SameAccounts a (AgentMessage.hello name os fp key caps) r =
      on_hello-SameAccounts a name os key caps r
  handle_agent_message-SameAccounts a (AgentMessage.pty_created s key sig req) r =
      elim (Option-cases (session_of_agent a s r)) [
        | inl none_ ↦ rw (none_, on_pty_created) (SameAccounts-refl r.db)
        | inr (m, there) ↦ rw (there, on_pty_created) (send_created-SameAccounts _ m.browser_ids r)
      ]
  handle_agent_message-SameAccounts a (AgentMessage.pty_exited s code) r =
      on_exited-SameAccounts a s code r
  handle_agent_message-SameAccounts a (AgentMessage.pty_error s error req) r =
      on_error-SameAccounts a s error req r
  handle_agent_message-SameAccounts a msg r = ground arith

  pub handle_browser_message-SameAccounts :
      (b : String) (msg : BrowserMessage) (r : Relay)
      → SameAccounts r.db (handle_browser_message e b msg r).db
  unfolding handle_browser_message on_pty_create create_session relay_to_agent relay_activity
      on_replay_request send_to_agent emit register_session subscribe send_to_browser audit touch
      add_agent_session
  handle_browser_message-SameAccounts b msg r = ground arith

  pub leave_from-SameAccounts :
      (b : String) (m : Map SessionMapping) (r r' : Relay)
      → SameAccounts r.db r'.db
      → SameAccounts r.db (leave_from e b m r').db
  unfolding leave_from leave_session
  leave_from-SameAccounts b [] r r' h = h
  leave_from-SameAccounts b ((s, m) ∷ rest) r r' h = leave_from-SameAccounts b rest r _ (
      ground (
        arith,
        SameAccounts-trans r.db r'.db _ h (
            destroy_session-SameAccounts s m.agent_id
              ("sessionId=" <> s <> ", reason=browser_disconnect") true (leave_session b s r')),
      ))

  pub end_from-SameAccounts :
      (a : String) (m : Map SessionMapping) (r r' : Relay)
      → SameAccounts r.db r'.db
      → SameAccounts r.db (end_from a m r').db
  unfolding end_from drop_session unsubscribe_all_from_session
  end_from-SameAccounts a [] r r' h = h
  end_from-SameAccounts a ((s, m) ∷ rest) r r' h =
      end_from-SameAccounts a rest r _ (ground (arith, h))

  pub handle_agent_disconnect-SameAccounts :
      (a token : String) (r : Relay) → SameAccounts r.db (handle_agent_disconnect e a token r).db
  unfolding handle_agent_disconnect
  handle_agent_disconnect-SameAccounts a token r =
      end_from-SameAccounts a r.sessions r _ (broadcast_to_owner-SameAccounts token _ r)

  pub handle_latency_update-SameAccounts :
      (a : String) (latency : Option ℤ) (r : Relay)
      → SameAccounts r.db (handle_latency_update e a latency r).db
  unfolding handle_latency_update broadcast_to_owner broadcast_to_user_browsers
  handle_latency_update-SameAccounts a latency r = ground arith

  pub ping_from-SameAccounts :
      (ids : String → String) (m : Map AgentConnection) (r r' : Relay)
      → SameAccounts r.db r'.db
      → SameAccounts r.db (ping_from e ids m r').db
  unfolding ping_from ping_one notify_lost set_ping clear_latency emit handle_latency_update
      broadcast_to_owner broadcast_to_user_browsers
  ping_from-SameAccounts ids [] r r' h = h
  ping_from-SameAccounts ids ((k, c) ∷ rest) r r' h =
      ping_from-SameAccounts ids rest r _ (ground (arith, h))
