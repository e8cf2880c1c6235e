-- ===== src/E2e/Tests.antt =====
-- packages/web/src/lib/e2e.ts: concrete instances of the theorems, with a cipher and an encoder that
-- satisfy what is assumed of them.
use Prim.Native.Char.{code}
use text.Mathlib.TextEquality.{Char-path}
use remote_ttys.Base.{
  ℕ, String, Option, none, some, List, [], ◌∷◌, ◌≡◌, ◌≢◌, inr, refl, arith, if◌then◌else◌, eqb,
}
use remote_ttys.Base.Texts.{codes}
use remote_ttys.E2e.{direction_b2a, AesGcm, encrypt, decrypt, resize_data}
use remote_ttys.E2e.Frames.{decrypt-encrypt, decrypt-encrypt_ne}
use remote_ttys.E2e.Transcripts.{sign_data_injective, resize_data_injective, resize_data-clamp_size}
use remote_ttys.Relay.Router.Validate.{clamp_size}

-- A cipher that only tags the text with its key.
pub open_tagged : ℕ → List ℕ → List ℕ → Option (List ℕ)
open_tagged key iv [] = none
open_tagged key iv (tag ∷ plain) = if eqb tag key then some plain else none

pub open_tagged-tag : (key : ℕ) (iv plain : List ℕ) → open_tagged key iv (key ∷ plain) ≡ some plain
unfolding open_tagged
open_tagged-tag key iv plain = ground arith

abbrev pub tagging : AesGcm
tagging = record {
  Key = ℕ;
  seal = λ key iv plain. key ∷ plain;
  unseal = open_tagged;
  unseal-seal = open_tagged-tag;
}

codes_injective : (s t : String) → codes s ≡ codes t → s ≡ t
codes_injective String.[] String.[] p = refl
codes_injective String.[] (String.◌∷◌ d t) p = absurd cc
codes_injective (String.◌∷◌ c s) String.[] p = absurd cc
codes_injective (String.◌∷◌ c s) (String.◌∷◌ d t) p =
    let heads : code c ≡ code d = ground arith in
    let tails : codes s ≡ codes t = ground arith in
    let same : c ≡ d = Char-path c d heads in let rest : s ≡ t = codes_injective s t tails in cc

-- The bytes of a public key: 64 bytes after the first.
abbrev bytes_from : ℕ → List ℕ → List ℕ
bytes_from b xs = b ∷ b ∷ b ∷ b ∷ b ∷ b ∷ b ∷ b ∷ b ∷ b ∷ b ∷ b ∷ b ∷ b ∷ b ∷ b ∷ xs

abbrev key_of : ℕ → List ℕ
key_of b = 4 ∷ bytes_from b (bytes_from b (bytes_from b (bytes_from b [])))

abbrev session : String
session = "s1"

abbrev width : ℕ
width = 120

abbrev height : ℕ
height = 40

decrypt-encrypt_example :
    decrypt tagging 5 (encrypt tagging 5 (1 ∷ 2 ∷ []) direction_b2a 3) direction_b2a 3
    ≡ some (1 ∷ 2 ∷ [])
decrypt-encrypt_example = decrypt-encrypt tagging 5 (1 ∷ 2 ∷ []) direction_b2a 3

decrypt-encrypt_ne_example :
    decrypt tagging 5 (encrypt tagging 5 (1 ∷ 2 ∷ []) direction_b2a 3) direction_b2a 4 ≡ none
decrypt-encrypt_ne_example =
    decrypt-encrypt_ne tagging 5 5 (1 ∷ 2 ∷ []) direction_b2a 3 direction_b2a 4 (omega arith)
      (omega arith) (omega arith) (omega arith) (inr (ground arith))

sign_data_injective_example : (key_of 1 ≡ key_of 1) × (key_of 2 ≡ key_of 2) × (session ≡ session)
sign_data_injective_example =
    sign_data_injective codes codes_injective (key_of 1) (key_of 2) (key_of 1) (key_of 2) session
      session refl refl refl refl refl

resize_data_injective_example : (session ≡ session) × (width ≡ width) × (height ≡ height)
resize_data_injective_example =
    resize_data_injective codes codes_injective session session width height width height
      (omega arith) (omega arith) (omega arith) (omega arith) refl

resize_data-clamp_size_example : resize_data codes session 500 40 ≢ resize_data codes session 600 40
unfolding clamp_size
resize_data-clamp_size_example =
    resize_data-clamp_size codes session 600 40 500 (omega arith) (omega arith) (omega arith) refl
