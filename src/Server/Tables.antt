-- ===== src/Server/Tables.antt =====
-- packages/relay/src/index.ts: no request touches who is connected and who sees a session.
use remote_ttys.Base.{
  String, Bool, List, [], ◌∷◌, Option, none, some, ◌==◌, inl, inr, Bool-cases, arith,
}
use remote_ttys.Db.{DeletedUser, delete_user, list_users, get_user_stats}
use remote_ttys.Auth.{VerifiedUser}
use remote_ttys.RateLimit.{RateLimitStore}
use remote_ttys.Relay.{Relay, audit}
use remote_ttys.Relay.AgentHub.{disconnect_agents_by_token}
use remote_ttys.Relay.BrowserHub.{disconnect_browsers_by_user_id}
use remote_ttys.Relay.Fields.{SameTables, SameTables-refl, SameTables-trans}
use remote_ttys.Server.Requests.{
  Services, WebEnv, Server, Request, Response, PreferencesBody, AuditParams, Call, get_version,
  get_setup_status, setup_init, login, get_me, logout, put_preferences, get_agents, delete_agent,
  delete_fingerprint, get_server_key, reset_key, get_users, post_user, remove_user, put_password,
  get_tokens, post_token, put_token_enabled, remove_token, get_stats, get_audit,
}
use remote_ttys.Server.Guards.{Handler, Limit, strict, standard, relaxed, put_store}
use remote_ttys.Server.Requests.{Name}
use remote_ttys.Base.{◌&&◌}
use remote_ttys.Server.Accounts.{
  given_name, log, set_db, set_relay, on_put_preferences, on_post_user, on_remove_user,
  on_put_password, with_credentials, add_user, set_up, change_password, on_setup_init, on_login,
  limit_login, try_login, sign_in, on_me, after_delete, disconnect_agents_by_tokens,
}
use remote_ttys.Server.Agents.{
  on_get_agents, on_delete_agent, on_delete_fingerprint, on_get_server_key, on_reset_key,
  after_change,
}
use remote_ttys.Server.Tokens.{
  on_get_tokens, on_post_token, on_put_token_enabled, on_remove_token, toggle_token,
}
use remote_ttys.Server.AuditPage.{on_get_audit}
use remote_ttys.Server.Middleware.{
  require_auth-then, changing-then, admin_changing-then, admin_reading-then, limited-then,
}
use remote_ttys.Server.Routes.{route, handle, limit_of}

disconnect_agents_by_tokens-SameTables :
    (hashes : List String) (r r' : Relay)
    → SameTables r r'
    → SameTables r (disconnect_agents_by_tokens hashes r')
unfolding disconnect_agents_by_tokens disconnect_agents_by_token
disconnect_agents_by_tokens-SameTables [] r r' h = h
disconnect_agents_by_tokens-SameTables (hash ∷ hashes) r r' h =
    disconnect_agents_by_tokens-SameTables hashes r (disconnect_agents_by_token hash r')
      (record { same_browsers = h.same_browsers; same_sessions = h.same_sessions })

module _ (v : Services) (e : WebEnv) (req : Request) where
  -- A handler leaves the tables of browsers and sessions as they were.
  abbrev Quiet : Handler v → Server → Type 0
  Quiet h s = SameTables s.relay (h s).1.relay

  after_delete-Quiet :
      (t : String) (u : VerifiedUser) (d : Option DeletedUser) (s : Server)
      → Quiet (after_delete v e t u d) s
  unfolding after_delete log audit set_relay disconnect_browsers_by_user_id
  after_delete-Quiet t u none s = SameTables-refl s.relay
  after_delete-Quiet t u (some d) s =
      let h =
        disconnect_agents_by_tokens-SameTables d.token_hashes s.relay s.relay
          (SameTables-refl s.relay) in
      record { same_browsers = h.same_browsers; same_sessions = h.same_sessions }

  on_remove_user-Quiet :
      (t : String) (u : VerifiedUser) (s : Server) → Quiet (on_remove_user v e t u) s
  unfolding on_remove_user set_db
  on_remove_user-Quiet t u s = elim (Bool-cases (u.is_text && t == u.username)) [
    | inl self ↦ rw (self, on_remove_user) (SameTables-refl s.relay)
    | inr other ↦
        let (deleted, db) = delete_user t s.relay.db in
        let h = after_delete-Quiet t u deleted (set_db db s) in
        rw (other, on_remove_user)
          (record { same_browsers = h.same_browsers; same_sessions = h.same_sessions })
  ]

  on_put_preferences-Quiet :
      (b : PreferencesBody) (u : VerifiedUser) (s : Server) → Quiet (on_put_preferences v e b u) s
  unfolding on_put_preferences set_db
  on_put_preferences-Quiet b u s = ground arith

  on_post_user-Quiet :
      (t : Option Name) (p : Option String) (u : VerifiedUser) (s : Server)
      → Quiet (on_post_user v e t p u) s
  unfolding on_post_user with_credentials given_name add_user log audit set_db
  on_post_user-Quiet t p u s = ground arith

  on_put_password-Quiet :
      (t : String) (p : Option String) (u : VerifiedUser) (s : Server)
      → Quiet (on_put_password v e t p u) s
  unfolding on_put_password change_password log audit set_db
  on_put_password-Quiet t p u s = ground arith

  on_setup_init-Quiet :
      (t : Option Name) (p : Option String) (s : Server) → Quiet (on_setup_init v e t p) s
  unfolding on_setup_init with_credentials given_name set_up sign_in log audit set_db
  on_setup_init-Quiet t p s = ground arith

  on_login-Quiet :
      (t : Option Name) (p : Option String) (s : Server) → Quiet (on_login v e req t p) s
  unfolding on_login limit_login try_login sign_in log audit
  on_login-Quiet t p s = ground arith

  on_me-Quiet : (s : Server) → Quiet (on_me v e req) s
  unfolding on_me
  on_me-Quiet s = ground arith

  on_delete_agent-Quiet :
      (id : String) (u : VerifiedUser) (s : Server) → Quiet (on_delete_agent v e id u) s
  unfolding on_delete_agent after_change log audit set_db
  on_delete_agent-Quiet id u s = ground arith

  on_delete_fingerprint-Quiet :
      (id : String) (u : VerifiedUser) (s : Server) → Quiet (on_delete_fingerprint v e id u) s
  unfolding on_delete_fingerprint after_change log audit set_db
  on_delete_fingerprint-Quiet id u s = ground arith

  on_reset_key-Quiet : (u : VerifiedUser) (s : Server) → Quiet (on_reset_key v e u) s
  unfolding on_reset_key log audit
  on_reset_key-Quiet u s = ground arith

  on_post_token-Quiet :
      (t n : Option String) (u : VerifiedUser) (s : Server) → Quiet (on_post_token v e t n u) s
  unfolding on_post_token log audit set_db
  on_post_token-Quiet t n u s = ground arith

  on_put_token_enabled-Quiet :
      (id : String) (b : Option Bool) (u : VerifiedUser) (s : Server)
      → Quiet (on_put_token_enabled v e id b u) s
  unfolding on_put_token_enabled toggle_token disconnect_agents_by_token set_relay log audit set_db
  on_put_token_enabled-Quiet id b u s = ground arith

  on_remove_token-Quiet :
      (t : String) (u : VerifiedUser) (s : Server) → Quiet (on_remove_token v e t u) s
  unfolding on_remove_token disconnect_agents_by_token set_relay log audit set_db
  on_remove_token-Quiet t u s = ground arith

  on_get_audit-Quiet :
      (p : AuditParams) (u : VerifiedUser) (s : Server) → Quiet (on_get_audit v p u) s
  unfolding on_get_audit
  on_get_audit-Quiet p u s = ground arith

  pub route-Quiet : (c : Call) (s : Server) → SameTables s.relay (route v e req c s).1.relay
  unfolding route on_get_agents on_get_tokens on_get_server_key
  route-Quiet get_version s = SameTables-refl s.relay
  route-Quiet get_setup_status s = SameTables-refl s.relay
  route-Quiet (setup_init a b) s = on_setup_init-Quiet a b s
  route-Quiet (login a b) s = on_login-Quiet a b s
  route-Quiet get_me s = on_me-Quiet s
  route-Quiet logout s = SameTables-refl s.relay
  route-Quiet get_agents s =
      require_auth-then v e req (λ s'. SameTables s.relay s'.relay) (on_get_agents v e) s
        (SameTables-refl s.relay) (λ user there. SameTables-refl s.relay)
  route-Quiet get_server_key s =
      require_auth-then v e req (λ s'. SameTables s.relay s'.relay) (on_get_server_key v e) s
        (SameTables-refl s.relay) (λ user there. SameTables-refl s.relay)
  route-Quiet get_tokens s =
      require_auth-then v e req (λ s'. SameTables s.relay s'.relay) (on_get_tokens v e) s
        (SameTables-refl s.relay) (λ user there. SameTables-refl s.relay)
  route-Quiet (get_audit p) s =
      require_auth-then v e req (λ s'. SameTables s.relay s'.relay) (on_get_audit v p) s
        (SameTables-refl s.relay) (λ user there. on_get_audit-Quiet p user s)
  route-Quiet get_users s =
      admin_reading-then v e req (λ s'. SameTables s.relay s'.relay)
        (λ s. Response.users (list_users s.relay.db)) s (SameTables-refl s.relay)
  route-Quiet get_stats s =
      admin_reading-then v e req (λ s'. SameTables s.relay s'.relay)
        (λ s. Response.stats (get_user_stats s.relay.db)) s (SameTables-refl s.relay)
  route-Quiet (put_preferences b) s =
      changing-then v e req (λ s'. SameTables s.relay s'.relay) (on_put_preferences v e b) s
        (SameTables-refl s.relay) (λ user there. on_put_preferences-Quiet b user s)
  route-Quiet (delete_agent a) s =
      changing-then v e req (λ s'. SameTables s.relay s'.relay) (on_delete_agent v e a) s
        (SameTables-refl s.relay) (λ user there. on_delete_agent-Quiet a user s)
  route-Quiet (delete_fingerprint a) s =
      changing-then v e req (λ s'. SameTables s.relay s'.relay) (on_delete_fingerprint v e a) s
        (SameTables-refl s.relay) (λ user there. on_delete_fingerprint-Quiet a user s)
  route-Quiet (post_token a b) s =
      changing-then v e req (λ s'. SameTables s.relay s'.relay) (on_post_token v e a b) s
        (SameTables-refl s.relay) (λ user there. on_post_token-Quiet a b user s)
  route-Quiet (put_token_enabled a b) s =
      changing-then v e req (λ s'. SameTables s.relay s'.relay) (on_put_token_enabled v e a b) s
        (SameTables-refl s.relay) (λ user there. on_put_token_enabled-Quiet a b user s)
  route-Quiet (remove_token a) s =
      changing-then v e req (λ s'. SameTables s.relay s'.relay) (on_remove_token v e a) s
        (SameTables-refl s.relay) (λ user there. on_remove_token-Quiet a user s)
  route-Quiet reset_key s =
      admin_changing-then v e req (λ s'. SameTables s.relay s'.relay) (on_reset_key v e) s
        (SameTables-refl s.relay) (λ user there is_admin. on_reset_key-Quiet user s)
  route-Quiet (post_user a b) s =
      admin_changing-then v e req (λ s'. SameTables s.relay s'.relay) (on_post_user v e a b) s
        (SameTables-refl s.relay) (λ user there is_admin. on_post_user-Quiet a b user s)
  route-Quiet (remove_user a) s =
      admin_changing-then v e req (λ s'. SameTables s.relay s'.relay) (on_remove_user v e a) s
        (SameTables-refl s.relay) (λ user there is_admin. on_remove_user-Quiet a user s)
  route-Quiet (put_password a b) s =
      admin_changing-then v e req (λ s'. SameTables s.relay s'.relay) (on_put_password v e a b) s
        (SameTables-refl s.relay) (λ user there is_admin. on_put_password-Quiet a b user s)

  put_store-SameTables :
      (which : Limit) (store : RateLimitStore) (s : Server)
      → SameTables s.relay (put_store which store s).relay
  unfolding put_store
  put_store-SameTables strict store s = SameTables-refl s.relay
  put_store-SameTables standard store s = SameTables-refl s.relay
  put_store-SameTables relaxed store s = SameTables-refl s.relay

  -- A request leaves the tables of browsers and of sessions as they are.
  pub handle-SameTables : (s : Server) → SameTables s.relay (handle v e req s).1.relay
  unfolding handle
  handle-SameTables s =
      limited-then v e req (λ s'. SameTables s.relay s'.relay) (limit_of req.call)
        (route v e req req.call) s (λ store. put_store-SameTables (limit_of req.call) store s)
        (λ store.
          SameTables-trans s.relay _ _ (put_store-SameTables (limit_of req.call) store s)
            (route-Quiet req.call (put_store (limit_of req.call) store s)))
