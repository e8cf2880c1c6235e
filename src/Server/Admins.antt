-- ===== src/Server/Admins.antt =====
-- packages/relay/src/index.ts: what requests do to the users as a whole.
pub mod Requests
use remote_ttys.Base.{
  ℕ, String, Bool, true, false, List, [], ◌∷◌, Option, none, some, ◌==◌, ◌≡◌, refl, inl, inr,
  Bool-cases, arith, if◌then◌else◌,
}
use remote_ttys.Db.{
  Db, UserRow, get_user, create_user, has_users, update_password, set_user_preferences,
  get_user_preferences, delete_agent_from_db, clear_agent_fingerprint, create_agent_token,
  set_agent_token_enabled, delete_agent_token, Preferences, DeletedUser, delete_user, list_users,
  get_user_stats,
}
use remote_ttys.Db.Administered.{IsAdministered, is_admin}
use remote_ttys.Db.Administered.Stays.{
  Stays, Stays-same, Stays-trans, update_password-Stays, set_user_preferences-Stays,
  create_user-Stays, delete_user-Stays,
}
use remote_ttys.Auth.{VerifiedUser, verify_jwt, check_claims, is_stale, Claims}
use remote_ttys.RateLimit.{RateLimitStore}
use remote_ttys.Relay.{Relay, audit}
use remote_ttys.Relay.AgentHub.{disconnect_agents_by_token}
use remote_ttys.Relay.BrowserHub.{disconnect_browsers_by_user_id}
use remote_ttys.Relay.Fields.{SameTables, SameTables-refl, SameTables-trans}
use remote_ttys.Server.Requests.{
  Services, WebEnv, Server, Request, Response, PreferencesBody, AuditParams, Call, get_version,
  get_setup_status, setup_init, login, get_me, logout, put_preferences, get_agents, delete_agent,
  delete_fingerprint, get_server_key, reset_key, get_users, post_user, remove_user, put_password,
  get_tokens, post_token, put_token_enabled, remove_token, get_stats, get_audit,
}
use remote_ttys.Server.Guards.{
  Handler, refuse, require_csrf, require_admin, require_auth, Limit, strict, standard, relaxed,
  put_store,
}
use remote_ttys.Server.Requests.{Name}
use remote_ttys.Server.Accounts.{
  given_name, log, set_db, set_relay, on_put_preferences, on_post_user, on_remove_user,
  on_put_password, with_credentials, add_user, set_up, change_password, on_setup_init, on_login,
  limit_login, try_login, sign_in, on_me, after_delete, disconnect_agents_by_tokens,
}
use remote_ttys.Server.Agents.{
  on_get_agents, on_delete_agent, on_delete_fingerprint, on_get_server_key, on_reset_key,
  after_change,
}
use remote_ttys.Server.Tokens.{
  on_get_tokens, on_post_token, on_put_token_enabled, on_remove_token, toggle_token,
}
use remote_ttys.Server.AuditPage.{on_get_audit}
use remote_ttys.Server.Middleware.{
  require_auth-then, changing-then, admin_changing-then, admin_reading-then, limited-then,
}
use remote_ttys.Server.Routes.{route, handle, limit_of}
use remote_ttys.Base.{Option-cases, ap, eq_iff, ◌∙◌, subst}
use remote_ttys.Server.Requests.{seconds}
use remote_ttys.Server.Guards.{validate_password, authenticate, parse_cookie, session_cookie}
use remote_ttys.Server.Gates.{CookieValue-cases}
use remote_ttys.Base.Texts.{truthy}
use remote_ttys.Server.Accounts.{merge_preferences}

-- The user of a verified token is in the database, with this role.
pub check_claims-row :
    (claims : Claims) (d : Db) (user : VerifiedUser)
    → check_claims claims d ≡ some user
    → (row : UserRow) × (get_user user.username d ≡ some row)
      × (row.role ≡ user.role)
      × (claims.is_text ≡ user.is_text)
unfolding check_claims
check_claims-row claims d user good = elim (Option-cases (get_user claims.username d)) [
  | inl gone ↦ absurd (let it : none ≡ some user = rw (gone, check_claims) at good in cc)
  | inr (row, there) ↦
      let it : (if is_stale claims.tv row.token_version
            then none
            else some (record {
              username = claims.username;
              is_text = claims.is_text;
              role = row.role;
              user_id = row.id;
            }))
          ≡ some user =
        rw (there, check_claims) at good in
      let same : record {
        username = claims.username;
        is_text = claims.is_text;
        role = row.role;
        user_id = row.id;
      }
          ≡ user =
        ground arith in
      (
        row,
        subst (λ (u : VerifiedUser). get_user u.username d ≡ some row) same there,
        ap (λ (u : VerifiedUser). u.role) same,
        ap (λ (u : VerifiedUser). u.is_text) same,
      )
]

pub disconnect_agents_by_tokens-db :
    (hashes : List String) (r : Relay) → (disconnect_agents_by_tokens hashes r).db ≡ r.db
unfolding disconnect_agents_by_tokens disconnect_agents_by_token
disconnect_agents_by_tokens-db [] r = refl
disconnect_agents_by_tokens-db (hash ∷ hashes) r =
    disconnect_agents_by_tokens-db hashes (disconnect_agents_by_token hash r)

module _ (v : Services) (e : WebEnv) (req : Request) where
  -- What a handler does to the users.
  abbrev pub Careful : Handler v → Server → Type 0
  Careful h s = Stays s.relay.db (h s).1.relay.db

  after_delete-users :
      (t : String) (u : VerifiedUser) (d : Option DeletedUser) (s : Server)
      → ((after_delete v e t u d s).1.relay.db.users ≡ s.relay.db.users)
        × ((after_delete v e t u d s).1.relay.db.next_user ≡ s.relay.db.next_user)
  unfolding after_delete log audit set_relay disconnect_browsers_by_user_id
  after_delete-users t u none s = (refl, refl)
  after_delete-users t u (some d) s =
      let same = disconnect_agents_by_tokens-db d.token_hashes s.relay in
      (ap (λ (d : Db). d.users) same, ap (λ (d : Db). d.next_user) same)

  pub on_remove_user-Careful :
      (t : String) (u : VerifiedUser) (row : UserRow) (s : Server)
      → get_user u.username s.relay.db ≡ some row
      → is_admin row ≡ true
      → u.is_text ≡ true
      → Careful (on_remove_user v e t u) s
  unfolding on_remove_user set_db after_delete
  on_remove_user-Careful t u row s there good named = elim (Bool-cases (t == u.username)) [
    | inl self ↦ rw (named, on_remove_user) (rw self (Stays-same _ _ refl refl))
    | inr other ↦
        let (deleted, db) = delete_user t s.relay.db in
        let h = after_delete-users t u deleted (set_db db s) in
        rw (named, on_remove_user)
          (rw other (
            Stays-trans _ _ _ (delete_user-Stays t u.username row s.relay.db there good other)
              (Stays-same _ _ h.0 h.1)))
  ]

  change_password-Careful :
      (t p : String) (u : VerifiedUser) (s : Server) → Careful (change_password v e t p u) s
  unfolding change_password log audit set_db
  change_password-Careful t p u s =
      let kept = update_password-Stays t (v.hash_password p) s.relay.db in
      elim (Bool-cases (update_password t (v.hash_password p) s.relay.db).0) [
        | inl found ↦
            rw (found, change_password) (Stays-trans _ _ _ kept (Stays-same _ _ refl refl))
        | inr missing ↦ rw (missing, change_password) kept
      ]

  pub on_put_password-Careful :
      (t : String) (p : Option String) (u : VerifiedUser) (s : Server)
      → Careful (on_put_password v e t p u) s
  unfolding on_put_password
  on_put_password-Careful t p u s = elim (Option-cases (truthy p)) [
    | inl missing ↦ rw (missing, on_put_password) (Stays-same _ _ refl refl)
    | inr (text, given) ↦ elim (Option-cases (validate_password text)) [
      | inr (message, short) ↦
          rw (given, on_put_password) (rw (short, on_put_password) (Stays-same _ _ refl refl))
      | inl good ↦
          rw (given, on_put_password)
            (rw (good, on_put_password) (change_password-Careful t text u s))
    ]
  ]

  pub on_put_preferences-Careful :
      (b : PreferencesBody) (u : VerifiedUser) (s : Server) → Careful (on_put_preferences v e b u) s
  unfolding on_put_preferences set_db
  on_put_preferences-Careful b u s = set_user_preferences-Stays u.username _ s.relay.db

  pub on_delete_agent-Careful :
      (id : String) (u : VerifiedUser) (s : Server) → Careful (on_delete_agent v e id u) s
  unfolding on_delete_agent after_change log audit set_db delete_agent_from_db
  on_delete_agent-Careful id u s = Stays-same _ _ (ground arith) (ground arith)

  pub on_delete_fingerprint-Careful :
      (id : String) (u : VerifiedUser) (s : Server) → Careful (on_delete_fingerprint v e id u) s
  unfolding on_delete_fingerprint after_change log audit set_db clear_agent_fingerprint
  on_delete_fingerprint-Careful id u s = Stays-same _ _ (ground arith) (ground arith)

  pub on_reset_key-Careful : (u : VerifiedUser) (s : Server) → Careful (on_reset_key v e u) s
  unfolding on_reset_key log audit
  on_reset_key-Careful u s = Stays-same _ _ (ground arith) (ground arith)

  pub on_login-Careful :
      (t : Option Name) (p : Option String) (s : Server) → Careful (on_login v e req t p) s
  unfolding on_login limit_login try_login sign_in log audit
  on_login-Careful t p s = Stays-same _ _ (ground arith) (ground arith)

  pub on_me-Careful : (s : Server) → Careful (on_me v e req) s
  unfolding on_me
  on_me-Careful s = Stays-same _ _ (ground arith) (ground arith)

  pub on_post_token-Careful :
      (t n : Option String) (u : VerifiedUser) (s : Server) → Careful (on_post_token v e t n u) s
  unfolding on_post_token log audit set_db create_agent_token
  on_post_token-Careful t n u s = Stays-same _ _ (ground arith) (ground arith)

  pub on_put_token_enabled-Careful :
      (id : String) (b : Option Bool) (u : VerifiedUser) (s : Server)
      → Careful (on_put_token_enabled v e id b u) s
  unfolding on_put_token_enabled toggle_token disconnect_agents_by_token set_relay log audit set_db
      set_agent_token_enabled
  on_put_token_enabled-Careful id b u s = Stays-same _ _ (ground arith) (ground arith)

  pub on_remove_token-Careful :
      (t : String) (u : VerifiedUser) (s : Server) → Careful (on_remove_token v e t u) s
  unfolding on_remove_token disconnect_agents_by_token set_relay log audit set_db delete_agent_token
  on_remove_token-Careful t u s = Stays-same _ _ (ground arith) (ground arith)

  pub on_get_audit-Careful :
      (p : AuditParams) (u : VerifiedUser) (s : Server) → Careful (on_get_audit v p u) s
  unfolding on_get_audit
  on_get_audit-Careful p u s = Stays-same _ _ (ground arith) (ground arith)

  pub add_user-Careful :
      (u : VerifiedUser) (n : Name) (p : String) (s : Server)
      → has_users s.relay.db ≡ true
      → Careful (add_user v e u n p) s
  unfolding add_user log audit set_db
  add_user-Careful u n p s some_ =
      elim (Option-cases
        (create_user e.env.datetime n.text (v.hash_password p) "user" s.relay.db)) [
          | inl taken ↦ rw (taken, add_user) (Stays-same _ _ refl refl)
          | inr (db, made) ↦
              rw (made, add_user)
                (Stays-trans _ db _
                  (create_user-Stays e.env.datetime n.text (v.hash_password p) "user" s.relay.db db
                    (λ none_. absurd cc) made)
                  (Stays-same _ _ refl refl))
        ]

  set_up-Careful : (n : Name) (p : String) (s : Server) → Careful (set_up v e n p) s
  unfolding set_up sign_in log audit set_db
  set_up-Careful n p s =
      elim (Option-cases
        (create_user e.env.datetime n.text (v.hash_password p) "admin" s.relay.db)) [
          | inl taken ↦ rw (taken, set_up) (Stays-same _ _ refl refl)
          | inr (db, made) ↦
              rw (made, set_up)
                (Stays-trans _ db _
                  (create_user-Stays e.env.datetime n.text (v.hash_password p) "admin" s.relay.db db
                    (λ none_. refl) made)
                  (Stays-same _ _ refl refl))
        ]

  pub with_credentials-Careful :
      (n : Option Name) (p : Option String) (next : Name → String → Handler v) (s : Server)
      → ((n' : Name) (p' : String) → Careful (next n' p') s)
      → Careful (with_credentials v e n p next) s
  unfolding with_credentials
  with_credentials-Careful n p next s h = elim (Option-cases (given_name n)) [
    | inl missing ↦ rw (missing, with_credentials) (Stays-same _ _ refl refl)
    | inr (name, given) ↦ elim (Option-cases (truthy p)) [
      | inl empty ↦
          rw (given, with_credentials) (rw (empty, with_credentials) (Stays-same _ _ refl refl))
      | inr (text, there) ↦ elim (Option-cases (validate_password text)) [
        | inr (message, short) ↦
            rw (given, with_credentials)
              (rw (there, with_credentials)
                (rw (short, with_credentials) (Stays-same _ _ refl refl)))
        | inl good ↦
            rw (given, with_credentials)
              (rw (there, with_credentials) (rw (good, with_credentials) (h name text)))
      ]
    ]
  ]

  pub on_setup_init-Careful :
      (n : Option Name) (p : Option String) (s : Server) → Careful (on_setup_init v e n p) s
  unfolding on_setup_init
  on_setup_init-Careful n p s = elim (Bool-cases (has_users s.relay.db)) [
    | inl some_ ↦ rw (some_, on_setup_init) (Stays-same _ _ refl refl)
    | inr none_ ↦
        rw (none_, on_setup_init)
          (with_credentials-Careful n p (set_up v e) s (λ n' p'. set_up-Careful n' p' s))
  ]
