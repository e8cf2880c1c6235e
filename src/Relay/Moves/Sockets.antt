-- ===== src/Relay/Moves/Sockets.antt =====
-- The moves of the callbacks of sockets and timers.
use remote_ttys.Base.{
  ℕ, String, false, Option, none, some, [], ◌∷◌, Map, get, set, size, get-delete, ltb, leb, ◌==◌,
  eq_refl, ◌≡◌, refl, inl, inr, Option-cases, Bool-cases, arith, if◌then◌else◌,
}
use remote_ttys.Base.Ints.{ℤ, pos, ◌-ℤ◌}
use remote_ttys.Base.Texts.{truthy}
use remote_ttys.Protocol.{AgentMessage, BrowserMessage, Frame}
use remote_ttys.Db
use remote_ttys.Db.{AgentRow}
use remote_ttys.Relay.{Socket, AgentConnection, AgentLink, PreAuth, Relay, Env, emit, audit}
use remote_ttys.Relay.Fields.{
  SameTables, SameTables-refl, SameTables-trans, handle_latency_update-SameTables, emit-SameTables,
}
use remote_ttys.Relay.Sharing.{member}
use remote_ttys.Relay.AgentSocket.{
  Hello, is_mismatch, reject, close_old, register, accept, on_hello, on_first, touch_agent,
  set_latency, on_pong, on_later, dispatch, agent_frame, remove_agent, agent_close, set_ping,
  clear_latency, notify_lost, ping_one, ping_from, ping_agents, connect_agent, next_latency,
  record_fingerprint, id_or, max_agent_msg_size,
}
use remote_ttys.Relay.BrowserSocket.{
  UserInfo, max_browser_connections, max_browser_msg_size, connect_browser, on_message,
  browser_frame, browser_close,
}
use remote_ttys.Relay.Moves.{Moves, done, joined, forget, one, one_same, Moves_trans}
use remote_ttys.Relay.Moves.Sessions.{
  handle_agent_disconnect-Moves, handle_browser_disconnect-Moves,
}
use remote_ttys.Relay.Moves.FromAgent.{handle_agent_message-Moves}
use remote_ttys.Relay.Moves.FromBrowser.{handle_browser_message-Moves}

-- Of a callback that may throw: what it does when it does not.
abbrev MovesTo : Relay → Option Relay → Type 0
MovesTo r none = Unit
MovesTo r (some r') = Moves r r'

module _ (e : Env) (ws : Socket) where
  register-SameTables :
      (id : String) (auth : PreAuth) (h : Hello) (r : Relay)
      → SameTables r (register e ws id auth h r)
  unfolding register close_old audit emit
  register-SameTables id auth h r = ground arith

  reject-SameTables :
      (code : ℕ) (detail : String) (r : Relay) → SameTables r (reject e ws code detail r)
  unfolding reject audit emit
  reject-SameTables code detail r = ground arith

  accept-Moves :
      (auth : PreAuth) (existing : Option AgentRow) (fp : String) (h : Hello) (r : Relay)
      → MovesTo r (accept e ws auth existing fp h r)
  unfolding accept
  accept-Moves auth existing fp h r =
      let id = id_or existing e.uuid in
      elim (Option-cases (Db.upsert_agent e.datetime id h.name h.os auth.token_hash r.db)) [
        | inl refused ↦ rw (refused, accept) tt
        | inr (db, stored) ↦
            rw (stored, accept)
              (Moves_trans
                (one_same (
                  SameTables-trans r (known id existing fp db auth r) _
                    (record { same_browsers = refl; same_sessions = refl })
                    (register-SameTables id auth h _)))
                (handle_agent_message-Moves e id _ _))
      ]
    where
      known : String → Option AgentRow → String → Db.Db → PreAuth → Relay → Relay
      known id ex f db au s = record s {
        db = record_fingerprint e ws ex id f db;
        agent_links = set ws (record { agent_id = some id; pre_auth = au }) s.agent_links;
      }

  on_hello-Moves :
      (auth : PreAuth) (fp : Option String) (h : Hello) (r : Relay)
      → MovesTo r (on_hello e ws auth fp h r)
  unfolding on_hello
  on_hello-Moves auth fp h r = elim (Option-cases (truthy fp)) [
    | inl missing ↦ rw (missing, on_hello) (one_same (reject-SameTables 4003 _ r))
    | inr (f, given) ↦
        let existing = Db.find_agent_by_token_and_name auth.token_hash h.name r.db in
        elim (Bool-cases (is_mismatch existing f)) [
          | inl other ↦
              rw (given, on_hello) (rw (other, on_hello) (one_same (reject-SameTables 4004 _ r)))
          | inr agrees ↦
              rw (given, on_hello) (rw (agrees, on_hello) (accept-Moves auth existing f h r))
        ]
  ]

  on_first-Moves :
      (auth : PreAuth) (msg : AgentMessage) (r : Relay) → MovesTo r (on_first e ws auth msg r)
  unfolding on_first
  on_first-Moves auth (AgentMessage.hello name os fp key caps) r = on_hello-Moves auth fp _ r
  on_first-Moves auth msg r = one_same (emit-SameTables _ r)

  touch_agent-SameTables : (a : String) (r : Relay) → SameTables r (touch_agent e ws a r)
  unfolding touch_agent
  touch_agent-SameTables a r = record { same_browsers = refl; same_sessions = refl }

  on_pong-SameTables :
      (a id : String) (timestamp : ℤ) (r : Relay) → SameTables r (on_pong e ws a id timestamp r)
  unfolding on_pong set_latency
  on_pong-SameTables a id timestamp r = elim (Option-cases (get a r.agents)) [
    | inl gone ↦ rw (gone, on_pong) (SameTables-refl r)
    | inr (c, there) ↦ elim (Option-cases c.pending_ping) [
      | inl idle ↦ rw (there, on_pong) (rw (idle, on_pong) (SameTables-refl r))
      | inr (ping, sent) ↦
          rw (there, on_pong)
            (rw (sent, on_pong)
              (ground (
                arith,
                handle_latency_update-SameTables e a
                    (some (next_latency e ws c.latency_ms (pos e.now -ℤ timestamp)))
                    (set_latency e ws a (next_latency e ws c.latency_ms (pos e.now -ℤ timestamp))
                      r),
              )))
    ]
  ]

  on_later-Moves : (a : String) (msg : AgentMessage) (r : Relay) → Moves r (on_later e ws a msg r)
  unfolding on_later
  on_later-Moves a (AgentMessage.pong id timestamp) r =
      one_same
        (SameTables-trans _ _ _ (touch_agent-SameTables a r) (on_pong-SameTables a id timestamp _))
  on_later-Moves a msg r =
      Moves_trans (one_same (touch_agent-SameTables a r)) (handle_agent_message-Moves e a _ _)

  dispatch-Moves :
      (link : AgentLink) (msg : AgentMessage) (r : Relay) → MovesTo r (dispatch e ws link msg r)
  unfolding dispatch
  dispatch-Moves link msg r = elim (Option-cases link.agent_id) [
    | inl first ↦ rw (first, dispatch) (on_first-Moves link.pre_auth msg r)
    | inr (a, later) ↦ rw (later, dispatch) (on_later-Moves a msg r)
  ]

  agent_frame-MovesTo :
      (frame : Frame AgentMessage) (r : Relay) → MovesTo r (agent_frame e ws frame r)
  unfolding agent_frame
  agent_frame-MovesTo frame r = elim (Option-cases (get ws r.agent_links)) [
    | inl unknown ↦ rw (unknown, agent_frame) done
    | inr (link, linked) ↦ elim (Bool-cases (ltb max_agent_msg_size frame.size)) [
      | inl large ↦
          rw (linked, agent_frame) (rw (large, agent_frame) (one_same (emit-SameTables _ r)))
      | inr fits ↦ elim (Option-cases frame.message) [
        | inl invalid ↦
            rw (linked, agent_frame) (rw (fits, agent_frame) (rw (invalid, agent_frame) done))
        | inr (msg, valid) ↦
            rw (linked, agent_frame)
              (rw (fits, agent_frame) (rw (valid, agent_frame) (dispatch-Moves link msg r)))
      ]
    ]
  ]

  pub agent_frame-Moves :
      (frame : Frame AgentMessage) (r r' : Relay) → agent_frame e ws frame r ≡ some r' → Moves r r'
  agent_frame-Moves frame r r' ran = rw ran at (agent_frame-MovesTo frame r)

  remove_agent-Moves :
      (a : String) (current : AgentConnection) (r : Relay) → Moves r (remove_agent e ws a current r)
  unfolding remove_agent audit
  remove_agent-Moves a current r =
      Moves_trans (one_same (record { same_browsers = refl; same_sessions = refl }))
        (handle_agent_disconnect-Moves e a current.token _)

  pub agent_close-Moves : (r : Relay) → Moves r (agent_close e ws r)
  unfolding agent_close
  agent_close-Moves r = elim (Option-cases (get ws r.agent_links)) [
    | inl unknown ↦ rw (unknown, agent_close) done
    | inr (link, linked) ↦ elim (Option-cases link.agent_id) [
      | inl first ↦ rw (linked, agent_close) (rw (first, agent_close) done)
      | inr (a, named) ↦ elim (Option-cases (get a r.agents)) [
        | inl gone ↦
            rw (linked, agent_close) (rw (named, agent_close) (rw (gone, agent_close) done))
        | inr (c, there) ↦
            rw (linked, agent_close)
              (rw (named, agent_close) (rw (there, agent_close) (close_current a c r)))
      ]
    ]
  ]
    where
      close_current :
          (a : String) (c : AgentConnection) (s : Relay)
          → Moves s (if c.ws == ws then remove_agent e ws a c s else s)
      close_current a c s = elim (Bool-cases (c.ws == ws)) [
        | inl same_socket ↦ rw same_socket (remove_agent-Moves a c s)
        | inr stale ↦ rw stale done
      ]

notify_lost-SameTables :
    (e : Env) (c : AgentConnection) (r : Relay) → SameTables r (notify_lost e c r)
unfolding notify_lost
notify_lost-SameTables e c r = elim (Option-cases c.latency_ms) [
  | inl unknown ↦ rw (unknown, notify_lost) (SameTables-refl r)
  | inr (old, known) ↦ rw (known, notify_lost) (handle_latency_update-SameTables e c.id none r)
]

ping_one-SameTables :
    (e : Env) (id k : String) (c : AgentConnection) (r : Relay) → SameTables r (ping_one e id k c r)
unfolding ping_one set_ping emit clear_latency
ping_one-SameTables e id k c r = ground (arith, notify_lost-SameTables e c (clear_latency k r))

ping_from-SameTables :
    (e : Env) (ids : String → String) (m : Map AgentConnection) (r : Relay)
    → SameTables r (ping_from e ids m r)
unfolding ping_from
ping_from-SameTables e ids [] r = SameTables-refl r
ping_from-SameTables e ids ((k, c) ∷ rest) r =
    SameTables-trans _ _ _ (ping_one-SameTables e (ids k) k c r)
      (ping_from-SameTables e ids rest (ping_one e (ids k) k c r))

pub ping_agents-Moves :
    (e : Env) (ids : String → String) (r : Relay) → Moves r (ping_agents e ids r)
unfolding ping_agents
ping_agents-Moves e ids r = one_same (ping_from-SameTables e ids r.agents r)

pub connect_agent-Moves :
    (ws : Socket) (auth : PreAuth) (r : Relay) → Moves r (connect_agent ws auth r)
unfolding connect_agent emit
connect_agent-Moves ws auth r = one_same (record { same_browsers = refl; same_sessions = refl })

pub connect_browser-Moves :
    (e : Env) (ws : Socket) (user : UserInfo) (r : Relay)
    → get e.uuid r.browsers ≡ none
    → ((s : String) → member e.uuid s r ≡ false)
    → Moves r (connect_browser e ws user r)
unfolding connect_browser
connect_browser-Moves e ws user r fresh unknown =
    elim (Bool-cases (leb max_browser_connections (size r.browsers))) [
      | inl full ↦ rw full (one_same (emit-SameTables _ r))
      | inr room ↦ rw room (one (joined e.uuid _ refl fresh unknown (ground arith) refl refl))
    ]

on_message-Moves :
    (e : Env) (ws : Socket) (b : String) (msg : BrowserMessage) (r : Relay)
    → get e.uuid r.sessions ≡ none
    → Moves r (on_message e ws b msg r)
unfolding on_message
on_message-Moves e ws b (BrowserMessage.ping timestamp) r fresh = one_same (emit-SameTables _ r)
on_message-Moves e ws b msg r fresh = handle_browser_message-Moves e b _ r fresh

pub browser_frame-Moves :
    (e : Env) (ws : Socket) (b : String) (frame : Frame BrowserMessage) (r : Relay)
    → get e.uuid r.sessions ≡ none
    → Moves r (browser_frame e ws b frame r)
unfolding browser_frame
browser_frame-Moves e ws b frame r fresh = elim (Bool-cases (ltb max_browser_msg_size frame.size)) [
  | inl large ↦ rw large (one_same (emit-SameTables _ r))
  | inr fits ↦ elim (Option-cases frame.message) [
    | inl invalid ↦ rw (fits, invalid) done
    | inr (msg, valid) ↦ rw (fits, valid) (on_message-Moves e ws b msg r fresh)
  ]
]

pub browser_close-Moves :
    (e : Env) (b : String) (r : Relay) → Moves (forget b r) (browser_close e b r)
unfolding browser_close forget
browser_close-Moves e b r =
    handle_browser_disconnect-Moves e b _ (rw (get-delete b b r.browsers, eq_refl b))
