-- ===== src/Auth/Tests.antt =====
-- packages/relay/src/auth.ts: concrete instances of the theorems. A web token is its payload and the
-- time of its issue, written out; a hash is the text behind a mark.
use remote_ttys.Base.{
  ℕ, ◌+◌, ◌≤◌, String, true, false, Option, none, some, [], ◌∷◌, ◌≡◌, refl, arith, ◌==◌, leb, ◌&&◌,
  eq_refl, if◌then◌else◌,
}
use remote_ttys.Base.Texts.{◌<>◌}
use remote_ttys.Db.{
  no_preferences, Db, UserRow, TokenRow, select_first, get_user, get_agent_token,
  delete_agent_token, set_agent_token_enabled,
}
use remote_ttys.Auth.{Claims, lifetime, Jwt, verify_agent_token, generate_jwt, verify_jwt}
use remote_ttys.Auth.Revocation.{
  changes, verify_agent_token-delete_agent_token, verify_agent_token-set_agent_token_enabled,
  verify_jwt-generate_jwt, verify_jwt-changes,
}

abbrev hashed : String → String
hashed token = "#" <> token

abbrev row : TokenRow
row = record {
  id = 3;
  token = "#tok";
  label = "laptop";
  notes = "";
  enabled = 1;
  user_id = some 7;
  created_at = "t0";
}

abbrev ann : UserRow
ann = record {
  id = 7;
  username = "ann";
  password = "h0";
  role = "user";
  token_version = 4;
  preferences = no_preferences;
  created_at = "t0";
}

abbrev tables : Db
tables = record {
  users = ann ∷ [];
  agent_tokens = row ∷ [];
  agents = [];
  audit_log = [];
  next_user = 8;
  next_token = 4;
  next_audit = 1;
}

pub record Issued : Type 0 where
  pub secret : String
  pub claims : Claims
  pub issued : ℕ

unfoldable pub verify_plain : String → ℕ → Issued → Option Claims
verify_plain secret now token =
    if (secret == token.secret) && (leb token.issued now && leb (now + 1) (token.issued + lifetime))
    then some token.claims
    else none

pub verify_plain-sign :
    (secret : String) (claims : Claims) (issued now : ℕ)
    → issued ≤ now
    → now + 1 ≤ issued + lifetime
    → verify_plain secret now (record { secret = secret; claims = claims; issued = issued })
      ≡ some claims
unfolding verify_plain
verify_plain-sign secret claims issued now after soon = rw (eq_refl secret) (ground arith)

abbrev pub plain : Jwt
plain = record {
  Token = Issued;
  sign = λ secret claims issued. record { secret = secret; claims = claims; issued = issued };
  verify = verify_plain;
  verify-sign = verify_plain-sign;
}

verify_jwt-generate_jwt_example :
    verify_jwt plain "s" 200 (generate_jwt plain "s" 100 "ann" true tables) tables
    ≡ some (record { username = "ann"; is_text = true; role = "user"; user_id = 7 })
unfolding get_user select_first
verify_jwt-generate_jwt_example =
    verify_jwt-generate_jwt plain "s" 100 200 (omega arith) (omega arith) "ann" true ann tables refl

verify_jwt-changes_example :
    verify_jwt plain "s" 200
      (generate_jwt plain "s" 100 "ann" true tables)
      (changes (("ann", "h1") ∷ ("bob", "h2") ∷ []) tables)
    ≡ none
unfolding get_user select_first
verify_jwt-changes_example =
    verify_jwt-changes plain "s" 100 200 (omega arith) (omega arith) "ann" true "h1"
      (("bob", "h2") ∷ []) ann tables refl

verify_agent_token-delete_agent_token_example :
    verify_agent_token hashed "tok" (delete_agent_token "#tok" tables).1 ≡ none
verify_agent_token-delete_agent_token_example =
    verify_agent_token-delete_agent_token hashed "tok" tables

verify_agent_token-set_agent_token_enabled_example :
    verify_agent_token hashed "tok" (set_agent_token_enabled 3 false tables).1 ≡ none
unfolding get_agent_token select_first
verify_agent_token-set_agent_token_enabled_example =
    verify_agent_token-set_agent_token_enabled hashed "tok" row tables refl
