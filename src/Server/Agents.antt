-- ===== src/Server/Agents.antt =====
-- packages/relay/src/index.ts: the routes of agents and of the server's key.
use remote_ttys.Base.{String, Bool, not, Option, none, some, List, [], map, eqb, if◌then◌else◌}
use remote_ttys.Base.Ints.{ℤ}
use remote_ttys.Base.Texts.{◌<>◌, slice}
use remote_ttys.Db.{
  AgentRow, list_agents_by_user, is_agent_owned_by_user, delete_agent_from_db,
  clear_agent_fingerprint,
}
use remote_ttys.Auth.{VerifiedUser}
use remote_ttys.ServerKey.{reset_server_key, get_server_public_key}
use remote_ttys.Relay.{Relay, AgentConnection}
use remote_ttys.Relay.AgentHub.{get_agent}
use remote_ttys.Server.Requests.{Services, WebEnv, AgentView, Response}
use remote_ttys.Server.Guards.{Handler, refuse}
use remote_ttys.Server.Accounts.{set_db, log}

abbrev sessions_of : Option AgentConnection → List String
sessions_of none = []
sessions_of (some c) = c.sessions

abbrev identity_of : Option AgentConnection → Option String
identity_of none = none
identity_of (some c) = some c.identity_key

abbrev latency_of : Option AgentConnection → Option ℤ
latency_of none = none
latency_of (some c) = c.latency_ms

abbrev capabilities_of : Option AgentConnection → List String
capabilities_of none = []
capabilities_of (some c) = c.capabilities

-- The row, and what its connection adds.
unfoldable pub agent_view : Relay → AgentRow → AgentView
agent_view r row = record {
  id = row.id;
  name = row.name;
  os = row.os;
  online = not (eqb row.online 0);
  sessions = sessions_of (get_agent row.id r);
  fingerprint = row.fingerprint;
  identity_key = identity_of (get_agent row.id r);
  latency_ms = latency_of (get_agent row.id r);
  capabilities = capabilities_of (get_agent row.id r);
  last_seen = row.last_seen;
  created_at = row.created_at;
}

module _ (v : Services) (e : WebEnv) where
  open v use {key_crypto}

  unfoldable pub on_get_agents : VerifiedUser → Handler v
  on_get_agents user s =
      (Response.agents (map (agent_view s.relay) (list_agents_by_user user.user_id s.relay.db)), s)

  -- The two routes on one agent differ in the statement and in the action that is logged.
  unfoldable pub after_change : String → String → VerifiedUser → Bool → Handler v
  after_change action id user found s =
      if found
      then (Response.done, log e action user.username ("agentId=" <> id) s)
      else refuse v 404 "Agent not found" s

  unfoldable pub on_delete_agent : String → VerifiedUser → Handler v
  on_delete_agent id user s =
      if not (is_agent_owned_by_user id user.user_id s.relay.db)
      then refuse v 403 "Not your agent" s
      else (let (found, db) = delete_agent_from_db id s.relay.db in
          after_change "agent_delete" id user found (set_db db s))

  unfoldable pub on_delete_fingerprint : String → VerifiedUser → Handler v
  on_delete_fingerprint id user s =
      if not (is_agent_owned_by_user id user.user_id s.relay.db)
      then refuse v 403 "Not your agent" s
      else (let (found, db) = clear_agent_fingerprint id s.relay.db in
          after_change "agent_fingerprint_reset" id user found (set_db db s))

  unfoldable pub on_get_server_key : VerifiedUser → Handler v
  on_get_server_key user s = (Response.public_key (get_server_public_key s.key), s)

  -- What ran before an exception of `resetServerKey` stays done.
  unfoldable pub on_reset_key : VerifiedUser → Handler v
  on_reset_key user s =
      let (ok, key) = reset_server_key key_crypto e.new_key s.key in
      let s' = record s { key = key } in
      if ok
      then (
        Response.public_key key.public_key,
        log e "server_key_reset" user.username ("new_key=" <> slice 8 key.public_key <> "...") s',
      )
      else refuse v 500 "Failed to reset server key" s'
