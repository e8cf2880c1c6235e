-- ===== src/Relay/AgentSocket.antt =====
-- packages/relay/src/agentHub.ts, `handleAgentConnection` and `startPingLoop`: the life of an agent's
-- socket. A result `none` is an exception that nothing catches.
use remote_ttys.Base.{
  ℕ, ◌-◌, ◌*◌, String, Bool, true, false, not, Option, none, some, List, [], ◌∷◌, Map, get, set,
  delete, modify, ltb, ◌==◌, if◌then◌else◌,
}
use remote_ttys.Base.Ints.{ℤ, pos, ◌-ℤ◌}
use remote_ttys.Base.Texts.{truthy, or_default, ◌<>◌}
use remote_ttys.Protocol.{AgentMessage, RelayToAgentMessage, Frame}
use remote_ttys.Db
use remote_ttys.Db.{AgentRow}
use remote_ttys.Relay.{
  Socket, AgentConnection, AgentLink, PreAuth, PendingPing, to_agent, close, Relay, Env, emit,
  audit,
}
use remote_ttys.Relay.Router.FromAgent.{handle_agent_message}
use remote_ttys.Relay.Router.Disconnect.{handle_agent_disconnect, handle_latency_update}

abbrev pub max_agent_msg_size : ℕ
max_agent_msg_size = 512 * 1024

abbrev pub ping_timeout_ms : ℕ
ping_timeout_ms = 10000

-- The call of `handleAgentConnection`: the challenge goes out first.
unfoldable pub connect_agent : Socket → PreAuth → Relay → Relay
connect_agent ws auth r =
    emit (to_agent ws (RelayToAgentMessage.challenge auth.challenge_signature)) (record r {
      agent_links = set ws (record { agent_id = none; pre_auth = auth }) r.agent_links;
    })

-- `existing && existing.fingerprint && existing.fingerprint !== hello.fingerprint`.
unfoldable pub is_mismatch : Option AgentRow → String → Bool
is_mismatch none fingerprint = false
is_mismatch (some row) fingerprint = elim (truthy row.fingerprint) [
  | none ↦ false
  | some stored ↦ not (stored == fingerprint)
]

-- `!existing?.fingerprint`.
unfoldable pub is_unrecorded : Option AgentRow → Bool
is_unrecorded none = true
is_unrecorded (some row) = elim (truthy row.fingerprint) [ none ↦ true | some stored ↦ false ]

abbrev pub id_or : Option AgentRow → String → String
id_or none id = id
id_or (some row) id = row.id

-- The fields of an `agent.hello` but its fingerprint.
pub record Hello : Type 0 where
  pub name : Option String
  pub os : Option String
  pub identity_key : Option String
  pub capabilities : Option (List String)

-- A field in a template text.
abbrev pub shown : Option String → String
shown field = or_default field "undefined"

module _ (e : Env) (ws : Socket) where
  unfoldable pub reject : ℕ → String → Relay → Relay
  reject code detail r = emit (close ws (some code)) (audit e "agent_reject" none detail r)

  -- The name and the operating system are there, since `upsert_agent` returned.
  unfoldable pub new_connection : String → PreAuth → Hello → AgentConnection
  new_connection id auth h = record {
    id = id;
    ws = ws;
    name = shown h.name;
    os = shown h.os;
    token = auth.token_hash;
    sessions = [];
    last_seen = e.now;
    identity_key = or_default h.identity_key "";
    latency_ms = none;
    pending_ping = none;
    capabilities = or_default h.capabilities [];
  }

  -- A connection of the same agent that is still open is closed.
  unfoldable pub close_old : String → Relay → Relay
  close_old id r = elim (get id r.agents) [
    | none ↦ r
    | some old ↦ if e.is_open old.ws then emit (close old.ws (some 4001)) r else r
  ]

  unfoldable pub record_fingerprint : Option AgentRow → String → String → Db.Db → Db.Db
  record_fingerprint existing id fingerprint db =
      if is_unrecorded existing then Db.set_agent_fingerprint id fingerprint db else db

  unfoldable pub register : String → PreAuth → Hello → Relay → Relay
  register id auth h r =
      let r1 = close_old id r in
      let r2 = record r1 { agents = set id (new_connection id auth h) r1.agents } in
      audit e "agent_connect" auth.label ("name=" <> shown h.name <> ", os=" <> shown h.os) r2

  -- An accepted `agent.hello`.
  unfoldable pub accept : PreAuth → Option AgentRow → String → Hello → Relay → Option Relay
  accept auth existing fingerprint h r =
      let id = id_or existing e.uuid in
      elim (Db.upsert_agent e.datetime id h.name h.os auth.token_hash r.db) [
        | none ↦ none
        | some db ↦
            let known = record r {
              db = record_fingerprint existing id fingerprint db;
              agent_links = set ws (record { agent_id = some id; pre_auth = auth }) r.agent_links;
            } in
            some (
              handle_agent_message e id
                (AgentMessage.hello h.name h.os (some fingerprint) h.identity_key h.capabilities)
                (register id auth h known))
      ]

  unfoldable pub on_hello : PreAuth → Option String → Hello → Relay → Option Relay
  on_hello auth fingerprint h r = elim (truthy fingerprint) [
    | none ↦ some (reject 4003 ("name=" <> shown h.name <> ", reason=missing fingerprint") r)
    | some fp ↦
        let existing = Db.find_agent_by_token_and_name auth.token_hash h.name r.db in
        if is_mismatch existing fp
        then some (
            reject 4004
              ("name="
                <> shown h.name
                <> ", agentId="
                <> id_or existing ""
                <> ", reason=fingerprint mismatch")
              r)
        else accept auth existing fp h r
  ]

  unfoldable pub on_first : PreAuth → AgentMessage → Relay → Option Relay
  on_first auth (AgentMessage.hello name os fp key caps) r =
      on_hello auth fp (record { name = name; os = os; identity_key = key; capabilities = caps }) r
  on_first auth _ r = some (emit (close ws none) r)

  unfoldable pub touch_agent : String → Relay → Relay
  touch_agent a r = record r {
    agents = modify a (λ (c : AgentConnection). record c { last_seen = e.now }) r.agents;
  }

  unfoldable pub next_latency : Option ℤ → ℤ → ℤ
  next_latency none raw = raw
  next_latency (some old) raw = e.smooth raw old

  unfoldable pub set_latency : String → ℤ → Relay → Relay
  set_latency a latency r = record r {
    agents =
        modify a
          (λ (c : AgentConnection). record c { latency_ms = some latency; pending_ping = none })
          r.agents;
  }

  -- A pong counts only if it answers the ping that is pending.
  unfoldable pub on_pong : String → String → ℤ → Relay → Relay
  on_pong a id timestamp r = elim (get a r.agents) [
    | none ↦ r
    | some conn ↦ elim conn.pending_ping [
      | none ↦ r
      | some ping ↦
          let latency = next_latency conn.latency_ms (pos e.now -ℤ timestamp) in
          let done = handle_latency_update e a (some latency) (set_latency a latency r) in
          if id == ping.id then done else r
    ]
  ]

  unfoldable pub on_later : String → AgentMessage → Relay → Relay
  on_later a (AgentMessage.pong id timestamp) r = on_pong a id timestamp (touch_agent a r)
  on_later a msg r = handle_agent_message e a msg (touch_agent a r)

  unfoldable pub dispatch : AgentLink → AgentMessage → Relay → Option Relay
  dispatch link msg r = elim link.agent_id [
    | none ↦ on_first link.pre_auth msg r
    | some a ↦ some (on_later a msg r)
  ]

  -- The callback of `message`. A socket that was never connected has no callback.
  unfoldable pub agent_frame : Frame AgentMessage → Relay → Option Relay
  agent_frame frame r = elim (get ws r.agent_links) [
    | none ↦ some r
    | some link ↦
        if ltb max_agent_msg_size frame.size
        then some (emit (close ws (some 1009)) r)
        else elim frame.message [ none ↦ some r | some msg ↦ dispatch link msg r ]
  ]

  unfoldable pub remove_agent : String → AgentConnection → Relay → Relay
  remove_agent a current r =
      let r1 = audit e "agent_disconnect" none ("agentId=" <> a <> ", name=" <> current.name) r in
      let r2 = record r1 { db = Db.set_agent_online e.datetime a false r1.db } in
      let r3 = record r2 { agents = delete a r2.agents } in
      handle_agent_disconnect e a current.token r3

  -- The callback of `close`: only the connection that is still the agent's current one counts.
  unfoldable pub agent_close : Relay → Relay
  agent_close r = elim (get ws r.agent_links) [
    | none ↦ r
    | some link ↦ elim link.agent_id [
      | none ↦ r
      | some a ↦ elim (get a r.agents) [
        | none ↦ r
        | some current ↦ if current.ws == ws then remove_agent a current r else r
      ]
    ]
  ]

-- One round of the ping loop for the connection stored under `k`; `id` is its fresh ping id.
unfoldable pub set_ping : String → Option PendingPing → Relay → Relay
set_ping k ping r = record r {
  agents = modify k (λ (c : AgentConnection). record c { pending_ping = ping }) r.agents;
}

unfoldable pub clear_latency : String → Relay → Relay
clear_latency k r = record r {
  agents =
      modify k (λ (c : AgentConnection). record c { latency_ms = none; pending_ping = none })
        r.agents;
}

unfoldable pub is_timed_out : ℕ → Option PendingPing → Bool
is_timed_out now none = false
is_timed_out now (some ping) = ltb ping_timeout_ms (now - ping.sent_at)

unfoldable pub notify_lost : Env → AgentConnection → Relay → Relay
notify_lost e c r = elim c.latency_ms [ none ↦ r | some old ↦ handle_latency_update e c.id none r ]

unfoldable pub ping_one : Env → String → String → AgentConnection → Relay → Relay
ping_one e id k c r =
    if not (e.is_open c.ws)
    then r
    else if is_timed_out e.now c.pending_ping
    then notify_lost e c (clear_latency k r)
    else emit (to_agent c.ws (RelayToAgentMessage.ping id e.now))
        (set_ping k (some (record { id = id; sent_at = e.now })) r)

unfoldable pub ping_from : Env → (String → String) → Map AgentConnection → Relay → Relay
ping_from e ids [] r = r
ping_from e ids ((k, c) ∷ rest) r = ping_from e ids rest (ping_one e (ids k) k c r)

-- `ids` gives the fresh uuid of each connection's ping.
unfoldable pub ping_agents : Env → (String → String) → Relay → Relay
ping_agents e ids r = ping_from e ids r.agents r
