-- ===== src/Server/Requests.antt =====
-- packages/relay/src/index.ts: requests, responses, and the state that the routes work on.
-- A body's field is an `Option`, absent or of its type, but for a user name; the values that Express gives for path
-- parameters are texts. An exception that a route lets through is answered by Express with 500.
use remote_ttys.Base.{ℕ, ◌/◌, String, Bool, Option, List}
use remote_ttys.Base.Ints.{ℤ}
use remote_ttys.Db.{Preferences, ListedUser, UserStats}
use remote_ttys.Db.AuditQuery.{AuditResult}
use remote_ttys.Auth.{Jwt}
use remote_ttys.RateLimit.{RateLimitStore}
use remote_ttys.ServerKey.{PrivateKey, KeyCrypto, KeyState}
use remote_ttys.Relay.{Relay, Env}

-- The code that the server calls and that is not its own: `decode` is `decodeURIComponent`, `none`
-- where it throws; `read_token` is the web token that a text is; `parse_int` is `parseInt` with
-- radix 10 and `parse_number` that without one, both `none` for NaN; `host_of` is `new URL(…).host`,
-- `none` where it throws.
pub record Services : Type 1 where
  pub jwt : Jwt
  pub secret : String
  pub read_token : String → jwt.Token
  pub decode : List ℕ → Option String
  pub hash_password : String → String
  pub compare_password : String → String → Bool
  pub hash_token : String → String
  pub like : String → String → Bool
  pub parse_int : String → Option ℤ
  pub parse_number : String → Option ℤ
  pub host_of : String → Option String
  pub key_crypto : KeyCrypto

-- What one request reads from outside: that of the relay's `Env`, and two values of
-- `randomBytes(32)` in hexadecimal and the key pair that may be generated.
pub record WebEnv : Type 0 where
  pub env : Env
  pub random : String
  pub csrf : String
  pub new_key : PrivateKey

-- Every limiter has its table, and so has the limiter of logins by name.
pub record Server : Type 0 where
  pub relay : Relay
  pub strict : RateLimitStore
  pub standard : RateLimitStore
  pub relaxed : RateLimitStore
  pub logins : RateLimitStore
  pub key : KeyState

pub record PreferencesBody : Type 0 where
  pub ui_theme : Option String
  pub terminal_theme : Option String
  pub font_size : Option ℤ
  pub font_family : Option String

pub record AuditParams : Type 0 where
  pub limit : Option String
  pub before : Option String
  pub after : Option String
  pub action : Option String
  pub user : Option String
  pub start_date : Option String
  pub end_date : Option String
  pub search : Option String

-- A user name in a body: a text, or, where not `is_text`, an array with that text alone, which the
-- database binds, and a template text shows, as the text.
pub record Name : Type 0 where
  pub text : String
  pub is_text : Bool

-- The routes, with what the handlers read of the path, the query and the body.
pub data Call : Type 0 where
  get_version : Call
  get_setup_status : Call
  setup_init : (username : Option Name) (password : Option String) → Call
  login : (username : Option Name) (password : Option String) → Call
  get_me : Call
  logout : Call
  put_preferences : PreferencesBody → Call
  get_agents : Call
  delete_agent : (id : String) → Call
  delete_fingerprint : (id : String) → Call
  get_server_key : Call
  reset_key : Call
  get_users : Call
  post_user : (username : Option Name) (password : Option String) → Call
  remove_user : (target : String) → Call
  put_password : (target : String) (password : Option String) → Call
  get_tokens : Call
  post_token : (label notes : Option String) → Call
  put_token_enabled : (id : String) (enabled : Option Bool) → Call
  remove_token : (token : String) → Call
  get_stats : Call
  get_audit : AuditParams → Call

-- `cookie` holds the codes of the header's characters, which may be absent.
pub record Request : Type 0 where
  pub ip : Option String
  pub remote_address : Option String
  pub cookie : Option (List ℕ)
  pub csrf_header : Option String
  pub call : Call

pub record AgentView : Type 0 where
  pub id : String
  pub name : String
  pub os : String
  pub online : Bool
  pub sessions : List String
  pub fingerprint : Option String
  pub identity_key : Option String
  pub latency_ms : Option ℤ
  pub capabilities : List String
  pub last_seen : Option String
  pub created_at : String

pub record TokenView : Type 0 where
  pub id : ℕ
  pub token : String
  pub label : String
  pub notes : String
  pub enabled : Bool
  pub user_id : Option ℕ
  pub created_at : String
  pub online_agents : List String

-- `me` holds the text of the name; `signed_in` sets the two cookies, `signed_out` and `expired` clear them.
pub data Response (T : Type 0) : Type 0 where
  done : Response T
  error : (status : ℕ) (message : String) → Response T
  signed_in : (session : T) (csrf : String) → Response T
  signed_out : Response T
  expired : Response T
  version : Response T
  setup_status : (needs_setup : Bool) → Response T
  me : (username role : String) → Preferences → Response T
  agents : List AgentView → Response T
  public_key : String → Response T
  users : List ListedUser → Response T
  tokens : List TokenView → Response T
  new_token : (token : String) → Response T
  stats : List UserStats → Response T
  audit_page : AuditResult → Response T

-- The clock of web tokens, in seconds.
abbrev pub seconds : WebEnv → ℕ
seconds e = e.env.now / 1000
