-- ===== src/Server/Accounts.antt =====
-- packages/relay/src/index.ts: the routes of setup, logins, preferences and users.
use remote_ttys.Base.{String, Option, none, some, List, [], ◌∷◌, ◌==◌, ◌&&◌, if◌then◌else◌}
use remote_ttys.Base.Ints.{ℤ, pos, leb_ℤ}
use remote_ttys.Base.Texts.{truthy, ◌<>◌}
use remote_ttys.Db.{
  Db, Preferences, DeletedUser, create_user, delete_user, update_password, has_users,
  get_user_preferences, set_user_preferences,
}
use remote_ttys.Auth.{VerifiedUser, verify_login, generate_jwt, verify_jwt}
use remote_ttys.RateLimit.{check}
use remote_ttys.Relay.{Relay, audit}
use remote_ttys.Relay.AgentHub.{disconnect_agents_by_token}
use remote_ttys.Relay.BrowserHub.{disconnect_browsers_by_user_id}
use remote_ttys.Server.Requests.{
  Services, WebEnv, Server, Name, PreferencesBody, Request, Response, seconds,
}
use remote_ttys.Server.Guards.{
  Handler, refuse, absent, broken, value, parse_cookie, session_cookie, validate_password,
}

unfoldable pub set_relay : Relay → Server → Server
set_relay r s = record s { relay = r }

unfoldable pub set_db : Db → Server → Server
set_db db s = record s { relay = record s.relay { db = db } }

-- `audit(action, user, detail)`
unfoldable pub log : WebEnv → String → String → String → Server → Server
log e action user detail s = record s { relay = audit e.env action (some user) detail s.relay }

-- `req.ip || req.socket.remoteAddress || ''`
unfoldable pub client_ip : Request → String
client_ip req = elim (truthy req.ip) [
  | some a ↦ a
  | none ↦ elim (truthy req.remote_address) [ some a ↦ a | none ↦ "" ]
]

unfoldable pub in_font_range : Option ℤ → Option ℤ
in_font_range none = none
in_font_range (some n) =
    if leb_ℤ (pos 10) n then (if leb_ℤ n (pos 24) then some n else none) else none

abbrev pub or_else {ℓ} : {A : Type ℓ} → Option A → Option A → Option A
or_else none b = b
or_else (some a) b = some a

-- `{ ...existing, ...prefs }`
unfoldable pub merge_preferences : Preferences → PreferencesBody → Preferences
merge_preferences existing body = record {
  ui_theme = or_else body.ui_theme existing.ui_theme;
  terminal_theme = or_else body.terminal_theme existing.terminal_theme;
  font_size = or_else (in_font_range body.font_size) existing.font_size;
  font_family = or_else body.font_family existing.font_family;
}

-- The loop over `result.tokenHashes`.
unfoldable pub disconnect_agents_by_tokens : List String → Relay → Relay
disconnect_agents_by_tokens [] r = r
disconnect_agents_by_tokens (hash ∷ hashes) r =
    disconnect_agents_by_tokens hashes (disconnect_agents_by_token hash r)

-- `!username`: an array is there, whatever it holds.
unfoldable pub given_name : Option Name → Option Name
given_name none = none
given_name (some n) = if n.is_text then (if n.text == "" then none else some n) else some n

module _ (v : Services) (e : WebEnv) where
  open v use {jwt, secret, read_token, hash_password, compare_password}

  unfoldable pub sign_in : Name → Handler v
  sign_in username s = (
    Response.signed_in
        (generate_jwt jwt secret (seconds e) username.text username.is_text s.relay.db) e.csrf,
    s,
  )

  unfoldable pub set_up : Name → String → Handler v
  set_up username password s =
      elim (create_user e.env.datetime username.text (hash_password password) "admin" s.relay.db) [
        | none ↦ refuse v 500 "" s
        | some db ↦
            sign_in username
              (log e "setup" username.text "Initial admin account created" (set_db db s))
      ]

  -- A user name and a password that are there, and a password that will do.
  unfoldable pub with_credentials :
      Option Name → Option String → (Name → String → Handler v) → Handler v
  with_credentials username password next s = elim (given_name username) [
    | none ↦ refuse v 400 "Username and password required" s
    | some u ↦ elim (truthy password) [
      | none ↦ refuse v 400 "Username and password required" s
      | some p ↦ elim (validate_password p) [
        | some message ↦ refuse v 400 message s
        | none ↦ next u p s
      ]
    ]
  ]

  unfoldable pub on_setup_init : Option Name → Option String → Handler v
  on_setup_init username password s =
      if has_users s.relay.db
      then refuse v 403 "Setup already completed" s
      else with_credentials username password set_up s

  -- The password is checked once the limiter of the name lets the request through.
  unfoldable pub try_login : Request → Name → String → Handler v
  try_login req username password s =
      if verify_login compare_password username.text password s.relay.db
      then sign_in username (log e "login" username.text ("ip=" <> client_ip req) s)
      else refuse v 401 "Invalid credentials"
          (log e "login_fail" username.text ("ip=" <> client_ip req) s)

  unfoldable pub limit_login : Request → Name → String → Handler v
  limit_login req username password s =
      let (passed, store) = check ("user:" <> username.text) e.env.now s.logins in
      let s' = record s { logins = store } in
      if passed
      then try_login req username password s'
      else refuse v 429 "Too many login attempts. Try again later."
          (log e "login_rate_limited" username.text ("ip=" <> client_ip req) s')

  unfoldable pub on_login : Request → Option Name → Option String → Handler v
  on_login req username password s = elim (given_name username) [
    | none ↦ refuse v 400 "Username and password required" s
    | some u ↦ elim (truthy password) [
      | none ↦ refuse v 400 "Username and password required" s
      | some p ↦ limit_login req u p s
    ]
  ]

  unfoldable pub on_me : Request → Handler v
  on_me req s = elim (parse_cookie v session_cookie req.cookie) [
    | broken ↦ refuse v 500 "" s
    | absent ↦ refuse v 401 "Not authenticated" s
    | value token ↦
        if token == ""
        then refuse v 401 "Not authenticated" s
        else elim (verify_jwt jwt secret (seconds e) (read_token token) s.relay.db) [
          | none ↦ (Response.expired, s)
          | some user ↦ (
            Response.me user.username user.role (get_user_preferences user.username s.relay.db),
            s,
          )
        ]
  ]

  unfoldable pub on_put_preferences : PreferencesBody → VerifiedUser → Handler v
  on_put_preferences body user s =
      let existing = get_user_preferences user.username s.relay.db in
      let (found, db) =
        set_user_preferences user.username (merge_preferences existing body) s.relay.db in
      (Response.done, set_db db s)

  unfoldable pub add_user : VerifiedUser → Name → String → Handler v
  add_user user username password s =
      elim (create_user e.env.datetime username.text (hash_password password) "user" s.relay.db) [
        | none ↦ refuse v 409 "Username already exists" s
        | some db ↦ (
          Response.done,
          log e "user_create" user.username ("target=" <> username.text) (set_db db s),
        )
      ]

  unfoldable pub on_post_user : Option Name → Option String → VerifiedUser → Handler v
  on_post_user username password user = with_credentials username password (add_user user)

  -- What follows `deleteUser`: his agents and his pages are disconnected.
  unfoldable pub after_delete : String → VerifiedUser → Option DeletedUser → Handler v
  after_delete target user none s = refuse v 404 "User not found" s
  after_delete target user (some deleted) s =
      let r1 = disconnect_agents_by_tokens deleted.token_hashes s.relay in
      let r2 = disconnect_browsers_by_user_id deleted.user_id r1 in
      (Response.done, log e "user_delete" user.username ("target=" <> target) (set_relay r2 s))

  -- `===` holds of two texts only.
  unfoldable pub on_remove_user : String → VerifiedUser → Handler v
  on_remove_user target user s =
      if user.is_text && target == user.username
      then refuse v 400 "Cannot delete yourself" s
      else (let (deleted, db) = delete_user target s.relay.db in
          after_delete target user deleted (set_db db s))

  unfoldable pub change_password : String → String → VerifiedUser → Handler v
  change_password target password user s =
      let (found, db) = update_password target (hash_password password) s.relay.db in
      if found
      then (
        Response.done,
        log e "password_change" user.username ("target=" <> target) (set_db db s),
      )
      else refuse v 404 "User not found" (set_db db s)

  unfoldable pub on_put_password : String → Option String → VerifiedUser → Handler v
  on_put_password target password user s = elim (truthy password) [
    | none ↦ refuse v 400 "Password required" s
    | some p ↦ elim (validate_password p) [
      | some message ↦ refuse v 400 message s
      | none ↦ change_password target p user s
    ]
  ]
