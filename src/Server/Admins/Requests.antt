-- ===== src/Server/Admins/Requests.antt =====
-- packages/relay/src/index.ts: no request takes away the last admin.
use remote_ttys.Base.{
  ℕ, sym, ◌∙◌, String, Bool, true, List, [], ◌∷◌, none, some, ◌==◌, ◌≡◌, refl, inl, inr, Bool-cases,
  arith,
}
use remote_ttys.Db.{select_first, Db, UserRow, get_user, has_users, list_users, get_user_stats}
use remote_ttys.Db.Administered.Stays.{Stays, Stays-same}
use remote_ttys.Auth.{Claims, VerifiedUser, verify_jwt}
use remote_ttys.RateLimit.{RateLimitStore}
use remote_ttys.Relay.{Relay}
use remote_ttys.Server.Requests.{
  Services, WebEnv, Server, Request, Response, Call, get_version, get_setup_status, setup_init,
  login, get_me, logout, put_preferences, get_agents, delete_agent, delete_fingerprint,
  get_server_key, reset_key, get_users, post_user, remove_user, put_password, get_tokens,
  post_token, put_token_enabled, remove_token, get_stats, get_audit,
}
use remote_ttys.Server.Guards.{Limit, strict, standard, relaxed, put_store}
use remote_ttys.Server.Accounts.{
  on_put_preferences, on_post_user, on_remove_user, on_put_password, add_user,
}
use remote_ttys.Server.Agents.{
  on_get_agents, on_delete_agent, on_delete_fingerprint, on_get_server_key, on_reset_key,
}
use remote_ttys.Server.Tokens.{on_get_tokens, on_post_token, on_put_token_enabled, on_remove_token}
use remote_ttys.Server.AuditPage.{on_get_audit}
use remote_ttys.Server.Middleware.{
  require_auth-then, changing-then, admin_changing-then, admin_reading-then, limited-then,
}
use remote_ttys.Server.Routes.{route, handle, limit_of}
use remote_ttys.Base.{length, ltb, Option-cases, subst}
use remote_ttys.Server.Requests.{seconds}
use remote_ttys.Server.Guards.{authenticate, parse_cookie, session_cookie, value}
use remote_ttys.Server.Gates.{CookieValue-cases}
use remote_ttys.Server.Admins.{
  Careful, add_user-Careful, check_claims-row, on_delete_agent-Careful,
  on_delete_fingerprint-Careful, on_get_audit-Careful, on_login-Careful, on_me-Careful,
  on_post_token-Careful, on_put_password-Careful, on_put_preferences-Careful,
  on_put_token_enabled-Careful, on_remove_token-Careful, on_remove_user-Careful,
  on_reset_key-Careful, on_setup_init-Careful, with_credentials-Careful,
}

-- The web token of the request, if it has one that is good, names its user by a text.
abbrev pub IsNamedByText : (v : Services) → Request → Type 0
IsNamedByText v req =
    (token : String) (now : ℕ) (claims : Claims)
    → parse_cookie v session_cookie req.cookie ≡ value token
    → v.jwt.verify v.secret now (v.read_token token) ≡ some claims
    → claims.is_text ≡ true

length-select_first :
    {A : Type 0} (p : A → Bool) (x : A) (xs : List A)
    → select_first p xs ≡ some x
    → ltb 0 (length xs) ≡ true
unfolding select_first
length-select_first p x [] found = absurd cc
length-select_first p x (y ∷ xs) found = ground arith

module _ (v : Services) (e : WebEnv) (req : Request) (plain : IsNamedByText v req) where
  verified-row :
      (token : String) (s : Server) (user : VerifiedUser)
      → parse_cookie v session_cookie req.cookie ≡ value token
      → verify_jwt v.jwt v.secret (seconds e) (v.read_token token) s.relay.db ≡ some user
      → (row : UserRow) × (get_user user.username s.relay.db ≡ some row)
        × (row.role ≡ user.role)
        × (user.is_text ≡ true)
  unfolding verify_jwt
  verified-row token s user there good =
      elim (Option-cases (v.jwt.verify v.secret (seconds e) (v.read_token token))) [
        | inl bad ↦ absurd (let it : none ≡ some user = rw (bad, verify_jwt) at good in cc)
        | inr (claims, signed) ↦
            let (row, found, role, text) =
              check_claims-row claims s.relay.db user (rw (signed, verify_jwt) at good) in
            (row, found, role, sym text ∙ plain token (seconds e) claims there signed)
      ]

  -- The user of the session is in the database.
  pub authenticate-row :
      (s : Server) (user : VerifiedUser)
      → authenticate v e req s ≡ inr user
      → (row : UserRow) × (get_user user.username s.relay.db ≡ some row)
        × (row.role ≡ user.role)
        × (user.is_text ≡ true)
  unfolding authenticate
  authenticate-row s user found =
      elim (CookieValue-cases (parse_cookie v session_cookie req.cookie)) [
        | inl missing ↦ absurd (ground arith)
        | inr (inl bad) ↦ absurd (ground arith)
        | inr (inr (token, there)) ↦ elim (Bool-cases (token == "")) [
          | inl empty ↦ absurd (ground arith)
          | inr full ↦
              elim (Option-cases
                (verify_jwt v.jwt v.secret (seconds e) (v.read_token token) s.relay.db)) [
                  | inl bad ↦ absurd (ground arith)
                  | inr (user', good) ↦
                      let same : user' ≡ user = ground arith in
                      subst
                        (λ (u : VerifiedUser).
                          (row : UserRow) × (get_user u.username s.relay.db ≡ some row)
                          × (row.role ≡ u.role)
                          × (u.is_text ≡ true))
                        same (verified-row token s user' there good)
                ]
        ]
      ]

  some_user :
      (name : String) (row : UserRow) (d : Db) → get_user name d ≡ some row → has_users d ≡ true
  unfolding get_user
  some_user name row d found = length-select_first _ row d.users found

  route-Careful : (c : Call) (s : Server) → Careful v e req (route v e req c) s
  unfolding route on_get_agents on_get_tokens on_get_server_key on_post_user
  route-Careful get_version s = Stays-same _ _ refl refl
  route-Careful get_setup_status s = Stays-same _ _ refl refl
  route-Careful logout s = Stays-same _ _ refl refl
  route-Careful (setup_init a b) s = on_setup_init-Careful v e req a b s
  route-Careful (login a b) s = on_login-Careful v e req a b s
  route-Careful get_me s = on_me-Careful v e req s
  route-Careful get_agents s =
      require_auth-then v e req (λ s'. Stays s.relay.db s'.relay.db) (on_get_agents v e) s
        (Stays-same _ _ refl refl) (λ user there. Stays-same _ _ refl refl)
  route-Careful get_server_key s =
      require_auth-then v e req (λ s'. Stays s.relay.db s'.relay.db) (on_get_server_key v e) s
        (Stays-same _ _ refl refl) (λ user there. Stays-same _ _ refl refl)
  route-Careful get_tokens s =
      require_auth-then v e req (λ s'. Stays s.relay.db s'.relay.db) (on_get_tokens v e) s
        (Stays-same _ _ refl refl) (λ user there. Stays-same _ _ refl refl)
  route-Careful (get_audit p) s =
      require_auth-then v e req (λ s'. Stays s.relay.db s'.relay.db) (on_get_audit v p) s
        (Stays-same _ _ refl refl) (λ user there. on_get_audit-Careful v e req p user s)
  route-Careful get_users s =
      admin_reading-then v e req (λ s'. Stays s.relay.db s'.relay.db)
        (λ s. Response.users (list_users s.relay.db)) s (Stays-same _ _ refl refl)
  route-Careful get_stats s =
      admin_reading-then v e req (λ s'. Stays s.relay.db s'.relay.db)
        (λ s. Response.stats (get_user_stats s.relay.db)) s (Stays-same _ _ refl refl)
  route-Careful (put_preferences b) s =
      changing-then v e req (λ s'. Stays s.relay.db s'.relay.db) (on_put_preferences v e b) s
        (Stays-same _ _ refl refl) (λ user there. on_put_preferences-Careful v e req b user s)
  route-Careful (delete_agent a) s =
      changing-then v e req (λ s'. Stays s.relay.db s'.relay.db) (on_delete_agent v e a) s
        (Stays-same _ _ refl refl) (λ user there. on_delete_agent-Careful v e req a user s)
  route-Careful (delete_fingerprint a) s =
      changing-then v e req (λ s'. Stays s.relay.db s'.relay.db) (on_delete_fingerprint v e a) s
        (Stays-same _ _ refl refl) (λ user there. on_delete_fingerprint-Careful v e req a user s)
  route-Careful (post_token a b) s =
      changing-then v e req (λ s'. Stays s.relay.db s'.relay.db) (on_post_token v e a b) s
        (Stays-same _ _ refl refl) (λ user there. on_post_token-Careful v e req a b user s)
  route-Careful (put_token_enabled a b) s =
      changing-then v e req (λ s'. Stays s.relay.db s'.relay.db) (on_put_token_enabled v e a b) s
        (Stays-same _ _ refl refl) (λ user there. on_put_token_enabled-Careful v e req a b user s)
  route-Careful (remove_token a) s =
      changing-then v e req (λ s'. Stays s.relay.db s'.relay.db) (on_remove_token v e a) s
        (Stays-same _ _ refl refl) (λ user there. on_remove_token-Careful v e req a user s)
  route-Careful reset_key s =
      admin_changing-then v e req (λ s'. Stays s.relay.db s'.relay.db) (on_reset_key v e) s
        (Stays-same _ _ refl refl) (λ user there is_admin. on_reset_key-Careful v e req user s)
  route-Careful (put_password a b) s =
      admin_changing-then v e req (λ s'. Stays s.relay.db s'.relay.db) (on_put_password v e a b) s
        (Stays-same _ _ refl refl)
        (λ user there is_admin. on_put_password-Careful v e req a b user s)
  route-Careful (post_user a b) s =
      admin_changing-then v e req (λ s'. Stays s.relay.db s'.relay.db) (on_post_user v e a b) s
        (Stays-same _ _ refl refl)
        (λ user there is_admin.
          let (row, found, role, text) = authenticate-row s user there in post_user user row found)
    where
      post_user :
          (user : VerifiedUser) (row : UserRow)
          → get_user user.username s.relay.db ≡ some row
          → Careful v e req (on_post_user v e a b user) s
      post_user user row found = with_credentials-Careful v e req a b (add_user v e user) s (λ n p.
          add_user-Careful v e req user n p s (some_user user.username row s.relay.db found))
  route-Careful (remove_user a) s =
      admin_changing-then v e req (λ s'. Stays s.relay.db s'.relay.db) (on_remove_user v e a) s
        (Stays-same _ _ refl refl)
        (λ user there good.
          let (row, found, role, text) = authenticate-row s user there in
          on_remove_user-Careful v e req a user row s found (rw role good) text)

  put_store-db :
      (which : Limit) (store : RateLimitStore) (s : Server)
      → (put_store which store s).relay ≡ s.relay
  unfolding put_store
  put_store-db strict store s = refl
  put_store-db standard store s = refl
  put_store-db relaxed store s = refl

  -- A request keeps the users administered, and a server that is set up stays so.
  pub handle-Stays : (s : Server) → Stays s.relay.db (handle v e req s).1.relay.db
  unfolding handle
  handle-Stays s =
      limited-then v e req (λ s'. Stays s.relay.db s'.relay.db) (limit_of req.call)
        (route v e req req.call) s
        (λ store.
          rw (put_store-db (limit_of req.call) store s)
            (Stays-same s.relay.db s.relay.db refl refl))
        (λ store.
          subst
            (λ (r : Relay).
              Stays r.db
                (route v e req req.call (put_store (limit_of req.call) store s)).1.relay.db)
            (put_store-db (limit_of req.call) store s)
            (route-Careful req.call (put_store (limit_of req.call) store s)))
