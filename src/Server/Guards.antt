-- ===== src/Server/Guards.antt =====
-- packages/relay/src/index.ts: the middleware. Each takes what is to run where it calls `next()`.
use remote_ttys.Base.{
  ℕ, String, Bool, false, not, ◌&&◌, Option, none, some, List, [], ◌∷◌, ◌==◌, ◌⊎◌, inl, inr, ltb,
  ◌+◌, leb, if◌then◌else◌,
}
use remote_ttys.Base.Texts.{codes}
use remote_ttys.Auth.{VerifiedUser, verify_jwt}
use remote_ttys.RateLimit.{RateLimitStore, check, limiter_key}
use remote_ttys.Server.Cookies.{match_cookie}
use remote_ttys.Server.Requests.{Services, WebEnv, Server, Request, Response, error, seconds}

pub data Limit : Type 0 where
  strict standard relaxed : Limit

unfoldable pub store_of : Limit → Server → RateLimitStore
store_of strict s = s.strict
store_of standard s = s.standard
store_of relaxed s = s.relaxed

unfoldable pub put_store : Limit → RateLimitStore → Server → Server
put_store strict store s = record s { strict = store }
put_store standard store s = record s { standard = store }
put_store relaxed store s = record s { relaxed = store }

abbrev pub session_cookie : List ℕ
session_cookie = codes "rttys-session="

abbrev pub csrf_cookie : List ℕ
csrf_cookie = codes "rttys-csrf="

unfoldable pub found_cookie : List ℕ → Option (List ℕ) → Option (List ℕ)
found_cookie key none = none
found_cookie key (some header) = match_cookie key header

-- The number of UTF-16 units, which is what `length` counts.
unfoldable pub utf16_length : List ℕ → ℕ
utf16_length [] = 0
utf16_length (c ∷ cs) = (if leb 0x10000 c then 2 else 1) + utf16_length cs

abbrev pub min_password_length : ℕ
min_password_length = 8

-- The error, if the password will not do.
unfoldable pub validate_password : String → Option String
validate_password password =
    if ltb (utf16_length (codes password)) min_password_length
    then some "Password must be at least 8 characters"
    else none

-- A cookie's value: absent, or the decoded text; the decoding may throw.
pub data CookieValue : Type 0 where
  absent : CookieValue
  broken : CookieValue
  value : String → CookieValue

-- `!cookieToken || !headerToken || cookieToken !== headerToken`, negated.
unfoldable pub csrf_matches : String → Option String → Bool
csrf_matches cookie none = false
csrf_matches cookie (some header) = not (cookie == "") && (not (header == "") && cookie == header)

module _ (v : Services) where
  open v use {jwt, secret, read_token, decode}

  abbrev pub Handler : Type 0
  Handler = Server → Response jwt.Token × Server

  abbrev pub answer : Response jwt.Token → Handler
  answer r s = (r, s)

  abbrev pub refuse : ℕ → String → Handler
  refuse status message s = (error status message, s)

  -- `createRateLimiter(...)` as middleware.
  unfoldable pub limited : Limit → WebEnv → Request → Handler → Handler
  limited which e req next s =
      let (passed, store) =
        check (limiter_key req.ip req.remote_address) e.env.now (store_of which s) in
      if passed
      then next (put_store which store s)
      else (error 429 "Too many requests. Try again later.", put_store which store s)

  unfoldable pub parse_cookie : List ℕ → Option (List ℕ) → CookieValue
  parse_cookie key header = elim (found_cookie key header) [
    | none ↦ absent
    | some text ↦ elim (decode text) [ none ↦ broken | some t ↦ value t ]
  ]

  -- The user of the session cookie: `inl` is the answer where there is none.
  unfoldable pub authenticate : WebEnv → Request → Server → Response jwt.Token ⊎ VerifiedUser
  authenticate e req s = elim (parse_cookie session_cookie req.cookie) [
    | broken ↦ inl (error 500 "")
    | absent ↦ inl (error 401 "Unauthorized")
    | value token ↦
        if token == ""
        then inl (error 401 "Unauthorized")
        else elim (verify_jwt jwt secret (seconds e) (read_token token) s.relay.db) [
          | none ↦ inl (error 401 "Invalid token")
          | some user ↦ inr user
        ]
  ]

  unfoldable pub require_auth : WebEnv → Request → (VerifiedUser → Handler) → Handler
  require_auth e req next s = elim (authenticate e req s) [
    | inl refusal ↦ (refusal, s)
    | inr user ↦ next user s
  ]

  -- Of the methods that are not GET: the cookie and the header are there and equal.
  unfoldable pub require_csrf : Request → Handler → Handler
  require_csrf req next s = elim (parse_cookie csrf_cookie req.cookie) [
    | broken ↦ (error 500 "", s)
    | absent ↦ (error 403 "CSRF validation failed", s)
    | value cookie ↦
        if csrf_matches cookie req.csrf_header
        then next s
        else (error 403 "CSRF validation failed", s)
  ]

  unfoldable pub require_admin : VerifiedUser → Handler → Handler
  require_admin user next s =
      if user.role == "admin" then next s else (error 403 "Admin access required", s)
