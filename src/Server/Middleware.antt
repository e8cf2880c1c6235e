-- ===== src/Server/Middleware.antt =====
-- packages/relay/src/index.ts: a property of the state passes through the middleware, which itself
-- changes no more than the limiters' tables.
use remote_ttys.Base.{true, ◌==◌, ◌≡◌, inl, inr, Bool-cases}
use remote_ttys.RateLimit.{RateLimitStore, check, limiter_key}
use remote_ttys.Auth.{VerifiedUser}
use remote_ttys.Server.Requests.{Services, WebEnv, Server, Request, Response}
use remote_ttys.Server.Guards.{
  parse_cookie, csrf_cookie, csrf_matches, authenticate, require_auth, require_csrf, require_admin,
  Handler, Limit, limited, put_store, store_of,
}
use remote_ttys.Server.Gates.{authenticate-cases, CookieValue-cases}

module _ (v : Services) (e : WebEnv) (req : Request) (P : Server → Type 0) where
  pub require_csrf-then :
      (next : Handler v) (s : Server) → P s → P (next s).1 → P (require_csrf v req next s).1
  unfolding require_csrf
  require_csrf-then next s before after =
      elim (CookieValue-cases (parse_cookie v csrf_cookie req.cookie)) [
        | inl missing ↦ rw (missing, require_csrf) before
        | inr (inl bad) ↦ rw (bad, require_csrf) before
        | inr (inr (cookie, there)) ↦ elim (Bool-cases (csrf_matches cookie req.csrf_header)) [
          | inl same ↦ rw (there, require_csrf) (rw same after)
          | inr other ↦ rw (there, require_csrf) (rw other before)
        ]
      ]

  pub require_admin-then :
      (user : VerifiedUser) (next : Handler v) (s : Server)
      → P s
      → ((user.role == "admin") ≡ true → P (next s).1)
      → P (require_admin v user next s).1
  unfolding require_admin
  require_admin-then user next s before after = elim (Bool-cases (user.role == "admin")) [
    | inl is_admin ↦ rw (is_admin, require_admin) (after is_admin)
    | inr other ↦ rw (other, require_admin) before
  ]

  pub require_auth-then :
      (next : VerifiedUser → Handler v) (s : Server)
      → P s
      → ((user : VerifiedUser) → authenticate v e req s ≡ inr user → P (next user s).1)
      → P (require_auth v e req next s).1
  unfolding require_auth
  require_auth-then next s before after = elim (authenticate-cases v e req s) [
    | inl (status, message, out) ↦ rw (out, require_auth) before
    | inr (user, there) ↦ rw (there, require_auth) (after user there)
  ]

  pub limited-then :
      (which : Limit) (next : Handler v) (s : Server)
      → ((store : RateLimitStore) → P (put_store which store s))
      → ((store : RateLimitStore) → P (next (put_store which store s)).1)
      → P (limited v which e req next s).1
  unfolding limited
  limited-then which next s before after =
      let result = check (limiter_key req.ip req.remote_address) e.env.now (store_of which s) in
      elim (Bool-cases result.0) [
        | inl passed ↦ rw (passed, limited) (after result.1)
        | inr full ↦ rw (full, limited) (before result.1)
      ]

  -- The middleware of the calls that change something, and of those that only read.
  pub changing-then :
      (next : VerifiedUser → Handler v) (s : Server)
      → P s
      → ((user : VerifiedUser) → authenticate v e req s ≡ inr user → P (next user s).1)
      → P (require_auth v e req (λ user. require_csrf v req (next user)) s).1
  changing-then next s before after =
      require_auth-then (λ user. require_csrf v req (next user)) s before
        (λ user there. require_csrf-then (next user) s before (after user there))

  pub admin_changing-then :
      (next : VerifiedUser → Handler v) (s : Server)
      → P s
      → ((user : VerifiedUser)
          → authenticate v e req s ≡ inr user
          → (user.role == "admin") ≡ true
          → P (next user s).1)
      → P (require_auth v e req (λ user. require_admin v user (require_csrf v req (next user))) s).1
  admin_changing-then next s before after =
      require_auth-then (λ user. require_admin v user (require_csrf v req (next user))) s before
        (λ user there.
          require_admin-then user (require_csrf v req (next user)) s before
            (λ is_admin. require_csrf-then (next user) s before (after user there is_admin)))

  pub admin_reading-then :
      (response : Server → Response v.jwt.Token) (s : Server)
      → P s
      → P (require_auth v e req (λ user. require_admin v user (λ s. (response s, s))) s).1
  admin_reading-then response s before =
      require_auth-then (λ user. require_admin v user (λ s. (response s, s))) s before
        (λ user there. require_admin-then user (λ s. (response s, s)) s before (λ is_admin. before))
