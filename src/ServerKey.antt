-- ===== src/ServerKey.antt =====
-- packages/relay/src/serverKey.ts: the key that the server signs challenges with, in memory and on
-- disk. A private key is the bytes of its PKCS8 form; node:crypto is a parameter.
pub mod Restart
pub mod Tests
use remote_ttys.Base.{
  ℕ, String, Bool, true, false, Option, none, some, List, drop, length, eqb, ◌≡◌, if◌then◌else◌,
}

abbrev pub PrivateKey : Type 0
PrivateKey = List ℕ

-- `spki` is the public key in its 44 bytes of SPKI, `sign` Ed25519 over the bytes of a text.
pub record KeyCrypto : Type 0 where
  pub spki : PrivateKey → List ℕ
  pub base64 : List ℕ → String
  pub sign : PrivateKey → String → List ℕ

-- The module's variables, unset before `initServerKey`, and the file `server_ed25519`.
pub record KeyState : Type 0 where
  pub private_key : Option PrivateKey
  pub public_key : String
  pub file : Option PrivateKey

module _ (crypto : KeyCrypto) where
  open crypto use {spki, base64, sign}

  -- The raw key behind the 12 bytes of the header; `none` is the exception of another length.
  unfoldable pub raw_public_key : PrivateKey → Option String
  raw_public_key key =
      if eqb (length (spki key)) 44 then some (base64 (drop 12 (spki key))) else none

  -- The last lines of both functions; the result is `false` where they throw.
  unfoldable pub publish : PrivateKey → KeyState → Bool × KeyState
  publish key s = elim (raw_public_key key) [
    | none ↦ (false, s)
    | some public ↦ (true, record s { public_key = public })
  ]

  unfoldable pub store_key : PrivateKey → KeyState → KeyState
  store_key key s = record s { private_key = some key; file = some key }

  -- `fresh` is the key that `generateKeyPairSync` makes.
  unfoldable pub init_server_key : PrivateKey → KeyState → Bool × KeyState
  init_server_key fresh s = elim s.file [
    | some key ↦ publish key (record s { private_key = some key })
    | none ↦ publish fresh (store_key fresh s)
  ]

  unfoldable pub reset_server_key : PrivateKey → KeyState → Bool × KeyState
  reset_server_key fresh s = publish fresh (store_key fresh s)

  -- `none` before the key is there.
  unfoldable pub sign_challenge : String → KeyState → Option String
  sign_challenge text s = elim s.private_key [
    | none ↦ none
    | some key ↦ some (base64 (sign key text))
  ]

unfoldable pub get_server_public_key : KeyState → String
get_server_public_key s = s.public_key
