-- ===== src/Server/Tokens.antt =====
-- packages/relay/src/index.ts: the routes of the tokens of agents.
use remote_ttys.Base.{
  String, Bool, true, false, not, Option, none, some, List, [], ◌∷◌, map, eqb, ◌==◌, if◌then◌else◌,
}
use remote_ttys.Base.Ints.{ℤ, pos, negsuc}
use remote_ttys.Base.Texts.{truthy, or_default, ◌<>◌, show_ℕ, slice}
use remote_ttys.Db.{
  Db, TokenRow, list_agent_tokens_by_user, create_agent_token, get_agent_token_by_id,
  is_token_owned_by_user, set_agent_token_enabled, is_token_hash_owned_by_user, delete_agent_token,
}
use remote_ttys.Auth.{VerifiedUser}
use remote_ttys.Relay.{AgentConnection, Relay}
use remote_ttys.Relay.AgentHub.{get_all_agents, disconnect_agents_by_token}
use remote_ttys.Server.Requests.{Services, WebEnv, Server, TokenView, Response}
use remote_ttys.Server.Guards.{Handler, refuse}
use remote_ttys.Server.Accounts.{set_relay, set_db, log}

-- `tokenOnlineMap.get(token) ?? []`: the names of the connected agents of a token, in their order.
unfoldable pub online_names : String → List AgentConnection → List String
online_names token [] = []
online_names token (a ∷ rest) =
    if a.token == token then a.name ∷ online_names token rest else online_names token rest

unfoldable pub token_view : Relay → TokenRow → TokenView
token_view r t = record {
  id = t.id;
  token = t.token;
  label = t.label;
  notes = t.notes;
  enabled = not (eqb t.enabled 0);
  user_id = t.user_id;
  created_at = t.created_at;
  online_agents = online_names t.token (get_all_agents r);
}

-- `getAgentTokenById(parseInt(…))`; there are no negative ids, and NaN is none.
unfoldable pub find_token : Option ℤ → Db → Option TokenRow
find_token none db = none
find_token (some (negsuc n)) db = none
find_token (some (pos n)) db = get_agent_token_by_id n db

abbrev show_Bool : Bool → String
show_Bool true = "true"
show_Bool false = "false"

module _ (v : Services) (e : WebEnv) where
  open v use {hash_token, parse_int}

  unfoldable pub on_get_tokens : VerifiedUser → Handler v
  on_get_tokens user s = (
    Response.tokens (map (token_view s.relay) (list_agent_tokens_by_user user.user_id s.relay.db)),
    s,
  )

  unfoldable pub on_post_token : Option String → Option String → VerifiedUser → Handler v
  on_post_token label notes user s = elim (truthy label) [
    | none ↦ refuse v 400 "Label is required" s
    | some text ↦
        elim (create_agent_token e.env.datetime (hash_token e.random) text (or_default notes "")
          user.user_id s.relay.db) [
            | none ↦ refuse v 500 "Failed to create token" s
            | some db ↦ (
              Response.new_token e.random,
              log e "token_create" user.username ("label=" <> text) (set_db db s),
            )
          ]
  ]

  -- `id` is the row's, which is the one that was asked for.
  unfoldable pub toggle_token : TokenRow → Bool → VerifiedUser → Server → Server
  toggle_token row enabled user s =
      let (found, db) = set_agent_token_enabled row.id enabled s.relay.db in
      let detail =
        "id=" <> show_ℕ row.id <> ", label=" <> row.label <> ", enabled=" <> show_Bool enabled in
      let s1 = log e "token_toggle" user.username detail (set_db db s) in
      if enabled then s1 else set_relay (disconnect_agents_by_token row.token s1.relay) s1

  unfoldable pub on_put_token_enabled : String → Option Bool → VerifiedUser → Handler v
  on_put_token_enabled id enabled user s = elim enabled [
    | none ↦ refuse v 400 "enabled (boolean) required" s
    | some on ↦ elim (find_token (parse_int id) s.relay.db) [
      | none ↦ refuse v 404 "Token not found" s
      | some row ↦
          if not (is_token_owned_by_user row.id user.user_id s.relay.db)
          then refuse v 403 "Not your token" s
          else (Response.done, toggle_token row on user s)
    ]
  ]

  -- The agents of the token are disconnected first.
  unfoldable pub on_remove_token : String → VerifiedUser → Handler v
  on_remove_token token user s =
      if not (is_token_hash_owned_by_user token user.user_id s.relay.db)
      then refuse v 403 "Not your token" s
      else (let s1 = set_relay (disconnect_agents_by_token token s.relay) s in
          let (found, db) = delete_agent_token token s1.relay.db in
          let s2 = set_db db s1 in
          if found
          then (
            Response.done,
            log e "token_delete" user.username ("token=" <> slice 8 token <> "...") s2,
          )
          else refuse v 404 "Token not found" s2)
