-- ===== src/Server/Routes.antt =====
-- packages/relay/src/index.ts: each route with its middleware, in the order of the code.
use remote_ttys.Base.{not}
use remote_ttys.Db.{list_users, get_user_stats, has_users}
use remote_ttys.Auth.{VerifiedUser}
use remote_ttys.Server.Requests.{
  Services, WebEnv, Call, get_version, get_setup_status, setup_init, login, get_me, logout,
  put_preferences, get_agents, delete_agent, delete_fingerprint, get_server_key, reset_key,
  get_users, post_user, remove_user, put_password, get_tokens, post_token, put_token_enabled,
  remove_token, get_stats, get_audit, Request, Response,
}
use remote_ttys.Server.Guards.{
  Limit, strict, standard, relaxed, Handler, limited, require_auth, require_csrf, require_admin,
}
use remote_ttys.Server.Accounts.{
  on_setup_init, on_login, on_me, on_put_preferences, on_post_user, on_remove_user, on_put_password,
}
use remote_ttys.Server.Agents.{
  on_get_agents, on_delete_agent, on_delete_fingerprint, on_get_server_key, on_reset_key,
}
use remote_ttys.Server.Tokens.{on_get_tokens, on_post_token, on_put_token_enabled, on_remove_token}
use remote_ttys.Server.AuditPage.{on_get_audit}

unfoldable pub limit_of : Call → Limit
limit_of get_version = relaxed
limit_of get_setup_status = relaxed
limit_of get_me = relaxed
limit_of (setup_init _ _) = strict
limit_of (login _ _) = strict
limit_of _ = standard

module _ (v : Services) (e : WebEnv) (req : Request) where
  abbrev signed : (VerifiedUser → Handler v) → Handler v
  signed next = require_auth v e req next

  abbrev changing : (VerifiedUser → Handler v) → Handler v
  changing next = require_auth v e req (λ user. require_csrf v req (next user))

  abbrev admin : (VerifiedUser → Handler v) → Handler v
  admin next = require_auth v e req (λ user. require_admin v user (next user))

  abbrev admin_changing : (VerifiedUser → Handler v) → Handler v
  admin_changing next =
      require_auth v e req (λ user. require_admin v user (require_csrf v req (next user)))

  -- What follows the limiter.
  unfoldable pub route : Call → Handler v
  route get_version s = (Response.version, s)
  route get_setup_status s = (Response.setup_status (not (has_users s.relay.db)), s)
  route (setup_init username password) s = on_setup_init v e username password s
  route (login username password) s = on_login v e req username password s
  route get_me s = on_me v e req s
  route logout s = (Response.signed_out, s)
  route (put_preferences body) s = changing (on_put_preferences v e body) s
  route get_agents s = signed (on_get_agents v e) s
  route (delete_agent id) s = changing (on_delete_agent v e id) s
  route (delete_fingerprint id) s = changing (on_delete_fingerprint v e id) s
  route get_server_key s = signed (on_get_server_key v e) s
  route reset_key s = admin_changing (on_reset_key v e) s
  route get_users s = admin (λ user s. (Response.users (list_users s.relay.db), s)) s
  route (post_user username password) s = admin_changing (on_post_user v e username password) s
  route (remove_user target) s = admin_changing (on_remove_user v e target) s
  route (put_password target password) s = admin_changing (on_put_password v e target password) s
  route get_tokens s = signed (on_get_tokens v e) s
  route (post_token label notes) s = changing (on_post_token v e label notes) s
  route (put_token_enabled id enabled) s = changing (on_put_token_enabled v e id enabled) s
  route (remove_token token) s = changing (on_remove_token v e token) s
  route get_stats s = admin (λ user s. (Response.stats (get_user_stats s.relay.db), s)) s
  route (get_audit params) s = signed (on_get_audit v params) s

  unfoldable pub handle : Handler v
  handle s = limited v (limit_of req.call) e req (route req.call) s
