-- ===== src/ServerKey/Tests.antt =====
-- packages/relay/src/serverKey.ts: a reset and a restart with a toy cipher.
use remote_ttys.Base.{ℕ, String, true, none, List, [], ◌∷◌, ◌≡◌, refl}
use remote_ttys.ServerKey.{
  PrivateKey, KeyCrypto, KeyState, raw_public_key, publish, init_server_key, reset_server_key,
  sign_challenge, get_server_public_key,
}
use remote_ttys.ServerKey.Restart.{restarted, init_server_key-reset_server_key}

-- 44 bytes, the last of which is the first of the private key.
abbrev spki_of : PrivateKey → List ℕ
spki_of [] = []
spki_of (b ∷ key) =
    0 ∷ 0 ∷ 0 ∷ 0 ∷ 0 ∷ 0 ∷ 0 ∷ 0 ∷ 0 ∷ 0 ∷ 0 ∷ 0 ∷ 0 ∷ 0 ∷ 0 ∷ 0 ∷ 0 ∷ 0 ∷ 0 ∷ 0 ∷ 0 ∷ 0 ∷ 0 ∷ 0
    ∷ 0 ∷ 0 ∷ 0 ∷ 0 ∷ 0 ∷ 0 ∷ 0 ∷ 0 ∷ 0 ∷ 0 ∷ 0 ∷ 0 ∷ 0 ∷ 0 ∷ 0 ∷ 0 ∷ 0 ∷ 0 ∷ 0 ∷ b ∷ []

abbrev toy : KeyCrypto
toy = record { spki = spki_of; base64 = λ bytes. "key"; sign = λ key text. key }

abbrev unset : KeyState
unset = record { private_key = none; public_key = ""; file = none }

abbrev reset : KeyState
reset = (reset_server_key toy (7 ∷ []) unset).1

init_server_key-reset_server_key_example :
    ((init_server_key toy (9 ∷ []) (restarted reset)).0 ≡ true)
    × (get_server_public_key (init_server_key toy (9 ∷ []) (restarted reset)).1
        ≡ get_server_public_key reset)
    × ((text : String)
        → sign_challenge toy text (init_server_key toy (9 ∷ []) (restarted reset)).1
          ≡ sign_challenge toy text reset)
unfolding reset_server_key publish raw_public_key
init_server_key-reset_server_key_example =
    init_server_key-reset_server_key toy (7 ∷ []) (9 ∷ []) unset refl
