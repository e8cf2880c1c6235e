-- ===== src/Auth.antt =====
-- packages/relay/src/auth.ts: the tokens of agents, the logins of users and their web tokens.
-- bcrypt, SHA-256 and the library for JSON web tokens are parameters.
pub mod Revocation
pub mod Tests
use remote_ttys.Base.{
  ℕ, ◌+◌, ◌*◌, ◌≤◌, String, Bool, true, false, not, Option, none, some, eqb, if◌then◌else◌, ◌≡◌,
}
use remote_ttys.Base.Texts.{or_default}
use remote_ttys.Db.{Db, UserRow, TokenRow, get_user, get_agent_token, has_agent_tokens}

-- What `verifyAgentToken` returns: the hash and the label, where `valid` is true.
pub record AgentToken : Type 0 where
  pub hash : String
  pub label : String

-- `if (!row.enabled)`.
unfoldable pub accept_row : String → TokenRow → Option AgentToken
accept_row hash row =
    if eqb row.enabled 0 then none else some (record { hash = hash; label = row.label })

-- `hash_token` is SHA-256 in hexadecimal.
unfoldable pub verify_agent_token : (String → String) → String → Db → Option AgentToken
verify_agent_token hash_token token db =
    if not (has_agent_tokens db) then none else elim (get_agent_token (hash_token token) db) [
      | none ↦ none
      | some row ↦ accept_row (hash_token token) row
    ]

-- `compare` is `bcrypt.compareSync`: the password, and the hash stored.
unfoldable pub verify_login : (String → String → Bool) → String → String → Db → Bool
verify_login compare username password db = elim (get_user username db) [
  | none ↦ false
  | some user ↦ compare password user.password
]

-- The payload of a web token. Its `username` is the text, or, where not `is_text`, the array with that
-- text alone, as which a body may give it and which the database binds as the text. Tokens of older versions have no role or no version.
pub record Claims : Type 0 where
  pub username : String
  pub is_text : Bool
  pub role : Option String
  pub tv : Option ℕ

-- 24 hours, in seconds.
abbrev pub lifetime : ℕ
lifetime = 24 * 60 * 60

-- jsonwebtoken with HS256: `sign` with the secret, the payload and the time; `verify` with the
-- secret, the time and the token, where `none` is an exception. A token that was signed with the
-- secret is good during its lifetime. `Token` is the type of web tokens, which the relay only passes on.
pub record Jwt : Type 1 where
  pub Token : Type 0
  pub sign : String → Claims → ℕ → Token
  pub verify : String → ℕ → Token → Option Claims
  pub verify-sign :
      (secret : String) (claims : Claims) (issued now : ℕ)
      → issued ≤ now
      → now + 1 ≤ issued + lifetime
      → verify secret now (sign secret claims issued) ≡ some claims

-- `username` and `is_text` as in the payload.
pub record VerifiedUser : Type 0 where
  pub username : String
  pub is_text : Bool
  pub role : String
  pub user_id : ℕ

abbrev version_of : Option UserRow → ℕ
version_of none = 0
version_of (some user) = user.token_version

abbrev role_of : Option UserRow → String
role_of none = "admin"
role_of (some user) = user.role

unfoldable pub claims_of : String → (is_text : Bool) → Db → Claims
claims_of username is_text db = record {
  username = username;
  is_text = is_text;
  role = some (role_of (get_user username db));
  tv = some (version_of (get_user username db));
}

unfoldable pub is_stale : Option ℕ → ℕ → Bool
is_stale none version = false
is_stale (some tv) version = not (eqb tv version)

-- The checks on the payload of a good token.
unfoldable pub check_claims : Claims → Db → Option VerifiedUser
check_claims claims db = elim (get_user claims.username db) [
  | none ↦ none
  | some user ↦
      if is_stale claims.tv user.token_version
      then none
      else some (record {
        username = claims.username;
        is_text = claims.is_text;
        role = user.role;
        user_id = user.id;
      })
]

module _ (jwt : Jwt) (secret : String) where
  open jwt use {Token, sign, verify}

  unfoldable pub generate_jwt : ℕ → String → (is_text : Bool) → Db → Token
  generate_jwt now username is_text db = sign secret (claims_of username is_text db) now

  unfoldable pub verify_jwt : ℕ → Token → Db → Option VerifiedUser
  verify_jwt now token db = elim (verify secret now token) [
    | none ↦ none
    | some claims ↦ check_claims claims db
  ]
