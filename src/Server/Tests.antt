-- ===== src/Server/Tests.antt =====
-- packages/relay/src/index.ts: requests to a small server. A web token is the name of a user, every
-- cookie decodes to "ann" but for one that begins with a percent sign, a hash is the text itself.
use remote_ttys.Base.{
  ℕ, String, true, false, Option, none, some, List, [], ◌∷◌, get, ◌==◌, ◌≡◌, ◌↔◌, if◌then◌else◌,
  refl, eqb, arith,
}
use remote_ttys.Base.Ints.{pos}
use remote_ttys.Base.Texts.{codes}
use remote_ttys.Db
use remote_ttys.Db.{
  reset_all_agents_offline, Db, UserRow, TokenRow, AgentRow, AuditRow, no_preferences, tokens_of,
}
use remote_ttys.Db.Administered.{IsAdministered}
use remote_ttys.Auth.{VerifiedUser, verify_agent_token}
use remote_ttys.Auth.Tests.{plain}
use remote_ttys.RateLimit.{new_store}
use remote_ttys.ServerKey.{init_server_key, publish, raw_public_key, store_key}
use remote_ttys.Relay.{AgentConnection}
use remote_ttys.Relay.Reach.{boot, IsFresh, Inv}
use remote_ttys.Server.Requests.{
  Services, WebEnv, Server, Request, Response, AuditParams, Call, Name, login, remove_user, error,
}
use remote_ttys.Server.Guards.{authenticate, parse_cookie, found_cookie}
use remote_ttys.Relay.Router.Validate.{is_space}
use remote_ttys.Server.Cookies.{match_cookie}
use remote_ttys.Server.Cookies.Header.{IsName, IsCookie, header_text, match_cookie-header_text}
use remote_ttys.Server.Routes.{route, handle}
use remote_ttys.Server.Accounts.{on_setup_init, on_remove_user}
use remote_ttys.Server.Tokens.{on_put_token_enabled, find_token}
use remote_ttys.Server.AuditPage.{on_get_audit}
use remote_ttys.Server.Upgrade.{to_browser_hub, on_upgrade}
use remote_ttys.Server.Gates.{Refuses, needs, has_access, route-Refuses}
use remote_ttys.Server.Closing.{Closed}
use remote_ttys.Server.Revoking.{
  IsForgotten, AreClosed, on_remove_user_revokes, on_put_token_enabled_revokes,
}
use remote_ttys.Server.Privacy.{ShowsOnly, on_get_audit-ShowsOnly}
use remote_ttys.Server.Crash.{is_fatal, on_upgrade-none}
use remote_ttys.Server.System.{
  request, start_server, system_step, Runs, started, goes_on, here, later,
}
use remote_ttys.Server.Admins.Requests.{IsNamedByText}
use remote_ttys.Server.System.Invariant.{Runs-Inv, set_up_once}

abbrev decode_toy : List ℕ → Option String
decode_toy [] = some ""
decode_toy (c ∷ cs) = if eqb c 0x25 then none else some "ann"

abbrev services : Services
services = record {
  jwt = plain;
  secret = "s";
  read_token = λ text. record {
    secret = "s";
    claims = record { username = text; is_text = true; role = none; tv = none };
    issued = 0;
  };
  decode = decode_toy;
  hash_password = λ password. password;
  compare_password = λ a b. a == b;
  hash_token = λ token. token;
  like = λ pattern text. true;
  parse_int = λ text. some (pos 3);
  parse_number = λ text. none;
  host_of = λ text. some text;
  key_crypto = record { spki = λ key. key; base64 = λ bytes. "key"; sign = λ key text. key };
}

abbrev bytes_44 : List ℕ
bytes_44 =
    1 ∷ 2 ∷ 3 ∷ 4 ∷ 5 ∷ 6 ∷ 7 ∷ 8 ∷ 9 ∷ 10 ∷ 11 ∷ 12 ∷ 13 ∷ 14 ∷ 15 ∷ 16 ∷ 17 ∷ 18 ∷ 19 ∷ 20 ∷ 21
    ∷ 22 ∷ 23 ∷ 24 ∷ 25 ∷ 26 ∷ 27 ∷ 28 ∷ 29 ∷ 30 ∷ 31 ∷ 32 ∷ 33 ∷ 34 ∷ 35 ∷ 36 ∷ 37 ∷ 38 ∷ 39 ∷ 40
    ∷ 41 ∷ 42 ∷ 43 ∷ 44 ∷ []

abbrev web_env : WebEnv
web_env = record {
  env = record {
    now = 2000;
    datetime = "t1";
    is_open = λ ws. true;
    uuid = "u1";
    smooth = λ raw old. raw;
  };
  random = "random";
  csrf = "csrf";
  new_key = bytes_44;
}

abbrev ann : UserRow
ann = record {
  id = 1;
  username = "ann";
  password = "h1";
  role = "admin";
  token_version = 0;
  preferences = no_preferences;
  created_at = "t0";
}

abbrev bob : UserRow
bob = record {
  id = 2;
  username = "bob";
  password = "h2";
  role = "user";
  token_version = 0;
  preferences = no_preferences;
  created_at = "t0";
}

abbrev token_row : TokenRow
token_row = record {
  id = 3;
  token = "tok";
  label = "laptop";
  notes = "";
  enabled = 1;
  user_id = some 2;
  created_at = "t0";
}

abbrev agent_row : AgentRow
agent_row = record {
  id = "a1";
  name = "box";
  os = "linux";
  token = "tok";
  fingerprint = none;
  online = 0;
  last_seen = none;
  created_at = "t0";
}

abbrev entry : String → ℕ → AuditRow
entry name id = record { id = id; ts = "t0"; action = "login"; user = some name; detail = none }

abbrev rows : Db
rows = record {
  users = ann ∷ bob ∷ [];
  agent_tokens = token_row ∷ [];
  agents = agent_row ∷ [];
  audit_log = entry "ann" 1 ∷ entry "bob" 2 ∷ [];
  next_user = 3;
  next_token = 4;
  next_audit = 3;
}

rows-IsAdministered : IsAdministered rows
rows-IsAdministered = record {
  ascending = ground arith;
  below = ground arith;
  admin = λ some_. refl;
}

abbrev started_server : Server
started_server = record {
  relay = boot rows;
  strict = new_store 900000 10;
  standard = new_store 60000 60;
  relaxed = new_store 60000 120;
  logins = new_store 900000 10;
  key = record { private_key = some bytes_44; public_key = "key"; file = some bytes_44 };
}

abbrev asking : Call → Request
asking call = record {
  ip = some "1.2.3.4";
  remote_address = none;
  cookie = none;
  csrf_header = none;
  call = call;
}

boot-IsFresh : IsFresh web_env.env (boot rows)
unfolding get
boot-IsFresh = record { no_session = refl; no_browser = refl; no_member = λ s. refl }

started_run : Runs services rows started_server
unfolding start_server init_server_key publish raw_public_key store_key reset_all_agents_offline
started_run = started web_env none refl

abbrev ann_name : Name
ann_name = record { text = "ann"; is_text = true }

abbrev eve_name : Name
eve_name = record { text = "eve"; is_text = true }

-- Without a cookie there is no web token.
asking-IsNamedByText : (call : Call) → IsNamedByText services (asking call)
unfolding parse_cookie found_cookie
asking-IsNamedByText call token now claims there signed = absurd cc

abbrev logged_in : Server
logged_in =
    (handle services web_env (asking (login (some ann_name) (some "wrong"))) started_server).1

next_run : Runs services rows logged_in
unfolding system_step
next_run =
    goes_on started_run web_env (request (asking (login (some ann_name) (some "wrong"))))
      (asking-IsNamedByText (login (some ann_name) (some "wrong"))) boot-IsFresh refl

Runs-Inv_example : Inv logged_in.relay × IsAdministered logged_in.relay.db
Runs-Inv_example = Runs-Inv rows-IsAdministered next_run

set_up_once_example :
    on_setup_init services web_env (some eve_name) (some "longenough") logged_in
    ≡ (error 403 "Setup already completed", logged_in)
unfolding system_step
set_up_once_example =
    set_up_once rows-IsAdministered started_run refl
      (later here web_env (request (asking (login (some ann_name) (some "wrong"))))
        (asking-IsNamedByText (login (some ann_name) (some "wrong"))) boot-IsFresh refl)
      web_env (some eve_name) (some "longenough")

route-Refuses_example :
    Refuses services web_env
      (asking (remove_user "bob"))
      (route services web_env (asking (remove_user "bob")) (remove_user "bob"))
      started_server
unfolding has_access needs authenticate parse_cookie found_cookie
route-Refuses_example =
    route-Refuses services web_env (asking (remove_user "bob")) (remove_user "bob") started_server
      refl

on_upgrade-none_example :
    (on_upgrade services web_env "w1"
        (to_browser_hub none (some "host") (some (codes "rttys-session=%")))
        started_server
      ≡ none)
    ↔ (is_fatal services web_env "w1"
          (to_browser_hub none (some "host") (some (codes "rttys-session=%")))
        ≡ true)
on_upgrade-none_example =
    on_upgrade-none services web_env "w1"
      (to_browser_hub none (some "host") (some (codes "rttys-session=%"))) started_server
      (λ missing. cc)

match_cookie-header_text_example :
    match_cookie (codes "b=") (header_text ((codes "a", codes "1") ∷ (codes "b", codes "2") ∷ []))
    ≡ some (codes "2")
unfolding is_space
match_cookie-header_text_example =
    match_cookie-header_text (codes "b") ((codes "a", codes "1") ∷ (codes "b", codes "2") ∷ [])
      b-IsName (a-IsCookie, (b-IsCookie, tt))
  where
    b-IsName : IsName (codes "b")
    b-IsName = ((λ h. ground arith, λ h. ground arith, refl), tt)

    a-IsCookie : IsCookie (codes "a", codes "1")
    a-IsCookie = (((λ h. ground arith, λ h. ground arith, refl), tt), ((λ h. ground arith), tt))

    b-IsCookie : IsCookie (codes "b", codes "2")
    b-IsCookie = (b-IsName, ((λ h. ground arith), tt))

abbrev ann_user : VerifiedUser
ann_user = record { username = "ann"; is_text = true; role = "admin"; user_id = 1 }

abbrev bob_user : VerifiedUser
bob_user = record { username = "bob"; is_text = true; role = "user"; user_id = 2 }

on_remove_user_revokes_example :
    ((on_remove_user services web_env "bob" ann_user started_server).0 ≡ Response.done)
    × IsForgotten 2
        (tokens_of 2 rows.agent_tokens)
        (on_remove_user services web_env "bob" ann_user started_server).1.relay.db
    × AreClosed 2
        (tokens_of 2 rows.agent_tokens)
        started_server.relay
        (on_remove_user services web_env "bob" ann_user started_server).1.relay
unfolding Db.get_user Db.select_first
on_remove_user_revokes_example =
    on_remove_user_revokes services web_env "bob" ann_user bob started_server refl refl

abbrev connected : AgentConnection
connected = record {
  id = "a1";
  ws = "w7";
  name = "box";
  os = "linux";
  token = "tok";
  sessions = [];
  last_seen = 0;
  identity_key = "";
  latency_ms = none;
  pending_ping = none;
  capabilities = [];
}

abbrev busy : Server
busy = record started_server {
  relay = record started_server.relay { agents = ("a1", connected) ∷ [] };
}

on_put_token_enabled_revokes_example :
    ((on_put_token_enabled services web_env "3" (some false) bob_user busy).0 ≡ Response.done)
    × (verify_agent_token services.hash_token "tok"
          (on_put_token_enabled services web_env "3" (some false) bob_user busy).1.relay.db
        ≡ none)
    × ((k : String) (c : AgentConnection)
        → get k busy.relay.agents ≡ some c
        → (c.token == "tok") ≡ true
        → Closed c.ws
            (on_put_token_enabled services web_env "3" (some false) bob_user busy).1.relay)
unfolding find_token Db.get_agent_token_by_id Db.get_agent_token Db.is_token_owned_by_user
    Db.select_first
on_put_token_enabled_revokes_example =
    on_put_token_enabled_revokes services web_env "3" "tok" token_row bob_user busy refl refl refl

abbrev everything : AuditParams
everything = record {
  limit = none;
  before = none;
  after = none;
  action = none;
  user = some "ann";
  start_date = none;
  end_date = none;
  search = none;
}

on_get_audit-ShowsOnly_example :
    ShowsOnly "bob" (on_get_audit services everything bob_user started_server).0
on_get_audit-ShowsOnly_example =
    on_get_audit-ShowsOnly services everything bob_user started_server refl refl
