-- ===== src/Relay/Accounts/Events.antt =====
-- What the callbacks of sockets and timers leave alone: the tables of users and of tokens.
use remote_ttys.Base.{
  String, Option, some, get, ◌≡◌, refl, inl, inr, Bool-cases, Option-cases, arith, ltb, ◌==◌,
}
use remote_ttys.Base.Texts.{truthy}
use remote_ttys.Relay.{Socket}
use remote_ttys.Relay.AgentSocket.{
  Hello, connect_agent, reject, register, close_old, record_fingerprint, accept, on_first,
  touch_agent, set_latency, on_pong, on_later, dispatch, agent_frame, remove_agent, agent_close,
  set_ping, clear_latency, notify_lost, ping_one, ping_from, ping_agents, is_mismatch, id_or,
  max_agent_msg_size,
}
use remote_ttys.Relay.AgentSocket
use remote_ttys.Relay.BrowserSocket.{
  max_browser_msg_size, connect_browser, on_message, browser_frame, browser_close,
}
use remote_ttys.Relay.Step.{
  Event, agent_connects, agent_sends, agent_closes, browser_connects, browser_sends, browser_closes,
  ping_timer, sweep_timer, step,
}
use remote_ttys.Protocol.{AgentMessage, BrowserMessage, Frame}
use remote_ttys.Db.{
  Db, AgentRow, upsert_agent, set_agent_online, set_agent_fingerprint, find_agent_by_token_and_name,
}
use remote_ttys.Relay.{Relay, Env, PreAuth, AgentConnection, emit, audit}
use remote_ttys.Relay.BrowserHub.{broadcast_to_user_browsers}
use remote_ttys.Relay.Router.Sessions.{broadcast_to_owner, sweep}
use remote_ttys.Relay.Router.Disconnect.{handle_browser_disconnect, handle_latency_update}
use remote_ttys.Relay.Accounts.{
  upsert_agent-SameAccounts, sweep_from-SameAccounts, handle_agent_message-SameAccounts,
  handle_browser_message-SameAccounts, leave_from-SameAccounts,
  handle_agent_disconnect-SameAccounts, ping_from-SameAccounts, SameAccounts, SameAccounts-refl,
  SameAccounts-trans, AfterDb,
}

module _ (e : Env) (ws : Socket) where
  register-SameAccounts :
      (id : String) (auth : PreAuth) (h : Hello) (r : Relay)
      → SameAccounts r.db (register e ws id auth h r).db
  unfolding register close_old audit emit
  register-SameAccounts id auth h r = ground arith

  record_fingerprint-SameAccounts :
      (existing : Option AgentRow) (id fp : String) (db : Db)
      → SameAccounts db (record_fingerprint e ws existing id fp db)
  unfolding record_fingerprint set_agent_fingerprint
  record_fingerprint-SameAccounts existing id fp db = ground arith

  accept-SameAccounts :
      (auth : PreAuth) (existing : Option AgentRow) (fp : String) (h : Hello) (r : Relay)
      → AfterDb r (accept e ws auth existing fp h r)
  unfolding accept
  accept-SameAccounts auth existing fp h r =
      let id = id_or existing e.uuid in
      elim (Option-cases (upsert_agent e.datetime id h.name h.os auth.token_hash r.db)) [
        | inl refused ↦ rw (refused, accept) tt
        | inr (db, stored) ↦
            rw (stored, accept)
              (SameAccounts-trans _ _ _
                (upsert_agent-SameAccounts e.datetime id h.name h.os auth.token_hash r.db db stored)
                (SameAccounts-trans _ _ _ (record_fingerprint-SameAccounts existing id fp db) (
                  SameAccounts-trans _ _ _ (register-SameAccounts id auth h _)
                    (handle_agent_message-SameAccounts e id _ _))))
      ]

  on_first-SameAccounts :
      (auth : PreAuth) (msg : AgentMessage) (r : Relay) → AfterDb r (on_first e ws auth msg r)
  unfolding on_first AgentSocket.on_hello reject audit emit
  on_first-SameAccounts auth (AgentMessage.hello name os fp key caps) r =
      elim (Option-cases (truthy fp)) [
        | inl missing ↦
            rw (missing, AgentSocket.on_hello)
              (record { users = refl; next_user = refl; agent_tokens = refl; next_token = refl })
        | inr (f, given) ↦
            let existing = find_agent_by_token_and_name auth.token_hash name r.db in
            elim (Bool-cases (is_mismatch existing f)) [
              | inl other ↦
                  rw (given, AgentSocket.on_hello)
                    (rw (other, AgentSocket.on_hello)
                      (record {
                        users = refl;
                        next_user = refl;
                        agent_tokens = refl;
                        next_token = refl;
                      }))
              | inr agrees ↦
                  rw (given, AgentSocket.on_hello)
                    (rw (agrees, AgentSocket.on_hello) (accept-SameAccounts auth existing f _ r))
            ]
      ]
  on_first-SameAccounts auth msg r = SameAccounts-refl r.db

  on_later-SameAccounts :
      (a : String) (msg : AgentMessage) (r : Relay) → SameAccounts r.db (on_later e ws a msg r).db
  unfolding on_later touch_agent on_pong set_latency handle_latency_update broadcast_to_owner
      broadcast_to_user_browsers
  on_later-SameAccounts a (AgentMessage.pong id timestamp) r = ground arith
  on_later-SameAccounts a msg r = handle_agent_message-SameAccounts e a _ _

  agent_frame-SameAccounts :
      (frame : Frame AgentMessage) (r : Relay) → AfterDb r (agent_frame e ws frame r)
  unfolding agent_frame dispatch emit
  agent_frame-SameAccounts frame r = elim (Option-cases (get ws r.agent_links)) [
    | inl unknown ↦ rw (unknown, agent_frame) (SameAccounts-refl r.db)
    | inr (link, linked) ↦ elim (Bool-cases (ltb max_agent_msg_size frame.size)) [
      | inl large ↦ rw (linked, agent_frame) (rw (large, agent_frame) (SameAccounts-refl r.db))
      | inr fits ↦ elim (Option-cases frame.message) [
        | inl invalid ↦
            rw (linked, agent_frame)
              (rw (fits, agent_frame) (rw (invalid, agent_frame) (SameAccounts-refl r.db)))
        | inr (msg, valid) ↦ elim (Option-cases link.agent_id) [
          | inl first ↦
              rw (linked, agent_frame)
                (rw (fits, agent_frame)
                  (rw (valid, agent_frame)
                    (rw (first, dispatch) (on_first-SameAccounts link.pre_auth msg r))))
          | inr (a, later) ↦
              rw (linked, agent_frame)
                (rw (fits, agent_frame)
                  (rw (valid, agent_frame) (rw (later, dispatch) (on_later-SameAccounts a msg r))))
        ]
      ]
    ]
  ]

  remove_agent-SameAccounts :
      (a : String) (c : AgentConnection) (r : Relay)
      → SameAccounts r.db (remove_agent e ws a c r).db
  unfolding remove_agent audit set_agent_online
  remove_agent-SameAccounts a c r =
      SameAccounts-trans _ _ _
        (record { users = refl; next_user = refl; agent_tokens = refl; next_token = refl })
        (handle_agent_disconnect-SameAccounts e a c.token _)

  agent_close-SameAccounts : (r : Relay) → SameAccounts r.db (agent_close e ws r).db
  unfolding agent_close
  agent_close-SameAccounts r = elim (Option-cases (get ws r.agent_links)) [
    | inl unknown ↦ rw (unknown, agent_close) (SameAccounts-refl r.db)
    | inr (link, linked) ↦ elim (Option-cases link.agent_id) [
      | inl first ↦ rw (linked, agent_close) (rw (first, agent_close) (SameAccounts-refl r.db))
      | inr (a, named) ↦ elim (Option-cases (get a r.agents)) [
        | inl gone ↦
            rw (linked, agent_close)
              (rw (named, agent_close) (rw (gone, agent_close) (SameAccounts-refl r.db)))
        | inr (c, there) ↦ elim (Bool-cases (c.ws == ws)) [
          | inl same_socket ↦
              rw (linked, agent_close)
                (rw (named, agent_close)
                  (rw (there, agent_close) (rw same_socket (remove_agent-SameAccounts a c r))))
          | inr stale ↦
              rw (linked, agent_close)
                (rw (named, agent_close)
                  (rw (there, agent_close) (rw stale (SameAccounts-refl r.db))))
        ]
      ]
    ]
  ]

on_message-SameAccounts :
    (e : Env) (ws : Socket) (b : String) (msg : BrowserMessage) (r : Relay)
    → SameAccounts r.db (on_message e ws b msg r).db
unfolding on_message emit
on_message-SameAccounts e ws b (BrowserMessage.ping timestamp) r = SameAccounts-refl r.db
on_message-SameAccounts e ws b msg r = handle_browser_message-SameAccounts e b _ r

browser_frame-SameAccounts :
    (e : Env) (ws : Socket) (b : String) (frame : Frame BrowserMessage) (r : Relay)
    → SameAccounts r.db (browser_frame e ws b frame r).db
unfolding browser_frame on_message emit
browser_frame-SameAccounts e ws b frame r =
    elim (Bool-cases (ltb max_browser_msg_size frame.size)) [
      | inl large ↦ rw (large, browser_frame) (SameAccounts-refl r.db)
      | inr fits ↦ elim (Option-cases frame.message) [
        | inl invalid ↦
            rw (fits, browser_frame) (rw (invalid, browser_frame) (SameAccounts-refl r.db))
        | inr (msg, valid) ↦
            rw (fits, browser_frame)
              (rw (valid, browser_frame) (on_message-SameAccounts e ws b msg r))
      ]
    ]

step-AfterDb : (e : Env) (ev : Event) (r : Relay) → AfterDb r (step e ev r)
unfolding step sweep handle_browser_disconnect ping_agents connect_agent connect_browser
    browser_frame on_message browser_close emit
step-AfterDb e (agent_connects ws auth) r = SameAccounts-refl r.db
step-AfterDb e (agent_sends ws frame) r = agent_frame-SameAccounts e ws frame r
step-AfterDb e (agent_closes ws) r = agent_close-SameAccounts e ws r
step-AfterDb e (browser_connects ws user) r = ground arith
step-AfterDb e (browser_sends ws b frame) r = browser_frame-SameAccounts e ws b frame r
step-AfterDb e (browser_closes b) r =
    leave_from-SameAccounts e b r.sessions r _ (SameAccounts-refl r.db)
step-AfterDb e (ping_timer ids) r =
    ping_from-SameAccounts e ids r.agents r r (SameAccounts-refl r.db)
step-AfterDb e sweep_timer r = sweep_from-SameAccounts e r.sessions r r (SameAccounts-refl r.db)

-- No callback of a socket or a timer, and no new connection, changes the tables of users and of
-- tokens, whatever agents and browsers send.
pub step-SameAccounts :
    (e : Env) (ev : Event) (r r' : Relay) → step e ev r ≡ some r' → SameAccounts r.db r'.db
step-SameAccounts e ev r r' ran = rw ran at (step-AfterDb e ev r)
