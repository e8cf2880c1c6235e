-- ===== src/Server/Gates.antt =====
-- packages/relay/src/index.ts: what a request needs before its handler runs.
use remote_ttys.Base.{
  ℕ, String, Bool, true, false, not, ◌&&◌, ◌||◌, ◌==◌, ◌≡◌, refl, inl, inr, ◌⊎◌, Bool-cases,
  Option-cases, arith,
}
use remote_ttys.Db.{list_users, get_user_stats}
use remote_ttys.Auth.{VerifiedUser, verify_jwt}
use remote_ttys.Server.Requests.{
  Services, WebEnv, Server, Call, get_version, get_setup_status, setup_init, login, get_me, logout,
  put_preferences, get_agents, delete_agent, delete_fingerprint, get_server_key, reset_key,
  get_users, post_user, remove_user, put_password, get_tokens, post_token, put_token_enabled,
  remove_token, get_stats, get_audit, Request, Response, error, seconds,
}
use remote_ttys.Server.Guards.{
  CookieValue, absent, broken, value, parse_cookie, session_cookie, csrf_cookie, csrf_matches,
  authenticate, require_auth, require_csrf, require_admin, Handler,
}
use remote_ttys.Server.Accounts.{on_put_preferences, on_post_user, on_remove_user, on_put_password}
use remote_ttys.Server.Agents.{
  on_get_agents, on_delete_agent, on_delete_fingerprint, on_get_server_key, on_reset_key,
}
use remote_ttys.Server.Tokens.{on_get_tokens, on_post_token, on_put_token_enabled, on_remove_token}
use remote_ttys.Server.AuditPage.{on_get_audit}
use remote_ttys.Server.Routes.{route}

-- Whether a call is open to anybody, needs a session, an admin's session, and the CSRF token.
pub record Needs : Type 0 where
  pub session : Bool
  pub admin : Bool
  pub csrf : Bool

unfoldable pub needs : Call → Needs
needs get_version = record { session = false; admin = false; csrf = false }
needs get_setup_status = record { session = false; admin = false; csrf = false }
needs (setup_init _ _) = record { session = false; admin = false; csrf = false }
needs (login _ _) = record { session = false; admin = false; csrf = false }
needs get_me = record { session = false; admin = false; csrf = false }
needs logout = record { session = false; admin = false; csrf = false }
needs get_agents = record { session = true; admin = false; csrf = false }
needs get_server_key = record { session = true; admin = false; csrf = false }
needs get_tokens = record { session = true; admin = false; csrf = false }
needs (get_audit _) = record { session = true; admin = false; csrf = false }
needs get_users = record { session = true; admin = true; csrf = false }
needs get_stats = record { session = true; admin = true; csrf = false }
needs (put_preferences _) = record { session = true; admin = false; csrf = true }
needs (delete_agent _) = record { session = true; admin = false; csrf = true }
needs (delete_fingerprint _) = record { session = true; admin = false; csrf = true }
needs (post_token _ _) = record { session = true; admin = false; csrf = true }
needs (put_token_enabled _ _) = record { session = true; admin = false; csrf = true }
needs (remove_token _) = record { session = true; admin = false; csrf = true }
needs reset_key = record { session = true; admin = true; csrf = true }
needs (post_user _ _) = record { session = true; admin = true; csrf = true }
needs (remove_user _) = record { session = true; admin = true; csrf = true }
needs (put_password _ _) = record { session = true; admin = true; csrf = true }

pub CookieValue-cases :
    (c : CookieValue) → (c ≡ absent) ⊎ ((c ≡ broken) ⊎ ((text : String) × (c ≡ value text)))
CookieValue-cases absent = inl refl
CookieValue-cases broken = inr (inl refl)
CookieValue-cases (value text) = inr (inr (text, refl))

module _ (v : Services) (e : WebEnv) (req : Request) where
  unfoldable pub has_csrf : Bool
  has_csrf = elim (parse_cookie v csrf_cookie req.cookie) [
    | value cookie ↦ csrf_matches cookie req.csrf_header
    | _ ↦ false
  ]

  -- Whether the request has what is needed.
  unfoldable pub has_access : Needs → Server → Bool
  has_access n s = not n.session || elim (authenticate v e req s) [
    | inl refusal ↦ false
    | inr user ↦ (not n.admin || user.role == "admin") && (not n.csrf || has_csrf)
  ]

  -- The handler answers with an error and leaves the state as it was.
  abbrev pub Refuses : Handler v → Server → Type 0
  Refuses h s = (status : ℕ) × (message : String) × (h s ≡ (error status message, s))

  require_csrf-Refuses :
      (next : Handler v) (s : Server) → has_csrf ≡ false → Refuses (require_csrf v req next) s
  unfolding require_csrf has_csrf
  require_csrf-Refuses next s unequal =
      elim (CookieValue-cases (parse_cookie v csrf_cookie req.cookie)) [
        | inl missing ↦ (403, "CSRF validation failed", rw (missing, require_csrf) refl)
        | inr (inl bad) ↦ (500, "", rw (bad, require_csrf) refl)
        | inr (inr (cookie, there)) ↦ (403, "CSRF validation failed", ground arith)
      ]

  require_admin-Refuses :
      (user : VerifiedUser) (next : Handler v) (s : Server)
      → (user.role == "admin") ≡ false
      → Refuses (require_admin v user next) s
  unfolding require_admin
  require_admin-Refuses user next s other =
      (403, "Admin access required", rw (other, require_admin) refl)

  pub authenticate-cases :
      (s : Server)
      → ((status : ℕ) × (message : String) × (authenticate v e req s ≡ inl (error status message)))
        ⊎ ((user : VerifiedUser) × (authenticate v e req s ≡ inr user))
  unfolding authenticate
  authenticate-cases s = elim (CookieValue-cases (parse_cookie v session_cookie req.cookie)) [
    | inl missing ↦ inl (401, "Unauthorized", rw (missing, authenticate) refl)
    | inr (inl bad) ↦ inl (500, "", rw (bad, authenticate) refl)
    | inr (inr (token, there)) ↦ elim (Bool-cases (token == "")) [
      | inl empty ↦
          inl (401, "Unauthorized", rw (there, authenticate) (rw (empty, authenticate) refl))
      | inr full ↦
          elim (Option-cases
            (verify_jwt v.jwt v.secret (seconds e) (v.read_token token) s.relay.db)) [
              | inl bad ↦ inl (
                401,
                "Invalid token",
                rw (there, authenticate) (rw (full, authenticate) (rw (bad, authenticate) refl)),
              )
              | inr (user, good) ↦ inr (
                user,
                rw (there, authenticate) (rw (full, authenticate) (rw (good, authenticate) refl)),
              )
            ]
    ]
  ]

  -- A refusal by the middleware, or by what follows it for the user of the session.
  signed-Refuses :
      (n : Needs) (next : VerifiedUser → Handler v) (s : Server)
      → n.session ≡ true
      → has_access n s ≡ false
      → ((user : VerifiedUser)
          → ((not n.admin || user.role == "admin") && (not n.csrf || has_csrf)) ≡ false
          → Refuses (next user) s)
      → Refuses (require_auth v e req next) s
  unfolding require_auth has_access
  signed-Refuses n next s needed denied rest = elim (authenticate-cases s) [
    | inl (status, message, out) ↦ (status, message, rw (out, require_auth) refl)
    | inr (user, there) ↦
        let (status, message, it) = rest user (ground arith) in
        (status, message, rw (there, require_auth) it)
  ]

  gated-Refuses :
      (user : VerifiedUser) (next : Handler v) (s : Server)
      → ((user.role == "admin") && has_csrf) ≡ false
      → Refuses (require_admin v user (require_csrf v req next)) s
  unfolding require_admin
  gated-Refuses user next s denied = elim (Bool-cases (user.role == "admin")) [
    | inl is_admin ↦
        let (status, message, it) = require_csrf-Refuses next s (ground arith) in
        (status, message, rw (is_admin, require_admin) it)
    | inr other ↦ require_admin-Refuses user (require_csrf v req next) s other
  ]

  -- A request that lacks what its call needs, by the table `needs` (a valid session, an admin's
  -- session, the CSRF token), gets an error and changes nothing behind the limiter.
  pub route-Refuses :
      (c : Call) (s : Server) → has_access (needs c) s ≡ false → Refuses (route v e req c) s
  unfolding route needs has_access
  route-Refuses get_version s denied = absurd cc
  route-Refuses get_setup_status s denied = absurd cc
  route-Refuses (setup_init _ _) s denied = absurd cc
  route-Refuses (login _ _) s denied = absurd cc
  route-Refuses get_me s denied = absurd cc
  route-Refuses logout s denied = absurd cc
  route-Refuses get_agents s denied =
      signed-Refuses (needs get_agents) (on_get_agents v e) s refl denied (λ user no_. absurd cc)
  route-Refuses get_server_key s denied =
      signed-Refuses (needs get_server_key) (on_get_server_key v e) s refl denied
        (λ user no_. absurd cc)
  route-Refuses get_tokens s denied =
      signed-Refuses (needs get_tokens) (on_get_tokens v e) s refl denied (λ user no_. absurd cc)
  route-Refuses (get_audit p) s denied =
      signed-Refuses (needs (get_audit p)) (on_get_audit v p) s refl denied (λ user no_. absurd cc)
  route-Refuses get_users s denied =
      signed-Refuses (needs get_users)
        (λ user. require_admin v user (λ s. (Response.users (list_users s.relay.db), s))) s refl
        denied
        (λ user no_.
          require_admin-Refuses user (λ s. (Response.users (list_users s.relay.db), s)) s
            (ground arith))
  route-Refuses get_stats s denied =
      signed-Refuses (needs get_stats)
        (λ user. require_admin v user (λ s. (Response.stats (get_user_stats s.relay.db), s))) s refl
        denied
        (λ user no_.
          require_admin-Refuses user (λ s. (Response.stats (get_user_stats s.relay.db), s)) s
            (ground arith))
  route-Refuses (put_preferences b) s denied =
      signed-Refuses (needs (put_preferences b))
        (λ user. require_csrf v req (on_put_preferences v e b user)) s refl denied
        (λ user. require_csrf-Refuses (on_put_preferences v e b user) s)
  route-Refuses (delete_agent a) s denied =
      signed-Refuses (needs (delete_agent a))
        (λ user. require_csrf v req (on_delete_agent v e a user)) s refl denied
        (λ user. require_csrf-Refuses (on_delete_agent v e a user) s)
  route-Refuses (delete_fingerprint a) s denied =
      signed-Refuses (needs (delete_fingerprint a))
        (λ user. require_csrf v req (on_delete_fingerprint v e a user)) s refl denied
        (λ user. require_csrf-Refuses (on_delete_fingerprint v e a user) s)
  route-Refuses (post_token a b) s denied =
      signed-Refuses (needs (post_token a b))
        (λ user. require_csrf v req (on_post_token v e a b user)) s refl denied
        (λ user. require_csrf-Refuses (on_post_token v e a b user) s)
  route-Refuses (put_token_enabled a b) s denied =
      signed-Refuses (needs (put_token_enabled a b))
        (λ user. require_csrf v req (on_put_token_enabled v e a b user)) s refl denied
        (λ user. require_csrf-Refuses (on_put_token_enabled v e a b user) s)
  route-Refuses (remove_token a) s denied =
      signed-Refuses (needs (remove_token a))
        (λ user. require_csrf v req (on_remove_token v e a user)) s refl denied
        (λ user. require_csrf-Refuses (on_remove_token v e a user) s)
  route-Refuses reset_key s denied =
      signed-Refuses (needs reset_key)
        (λ user. require_admin v user (require_csrf v req (on_reset_key v e user))) s refl denied
        (λ user. gated-Refuses user (on_reset_key v e user) s)
  route-Refuses (post_user a b) s denied =
      signed-Refuses (needs (post_user a b))
        (λ user. require_admin v user (require_csrf v req (on_post_user v e a b user))) s refl
        denied (λ user. gated-Refuses user (on_post_user v e a b user) s)
  route-Refuses (remove_user a) s denied =
      signed-Refuses (needs (remove_user a))
        (λ user. require_admin v user (require_csrf v req (on_remove_user v e a user))) s refl
        denied (λ user. gated-Refuses user (on_remove_user v e a user) s)
  route-Refuses (put_password a b) s denied =
      signed-Refuses (needs (put_password a b))
        (λ user. require_admin v user (require_csrf v req (on_put_password v e a b user))) s refl
        denied (λ user. gated-Refuses user (on_put_password v e a b user) s)
