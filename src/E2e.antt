-- ===== src/E2e.antt =====
-- packages/web/src/lib/e2e.ts: the nonces, the sealed frames and the signed transcripts of the
-- end-to-end encryption. Bytes are numbers. The Web Crypto API and the UTF-8 encoder are parameters.
pub mod Tests
pub mod Nonce
pub mod Frames
pub mod Transcripts
use remote_ttys.Base.{
  ℕ, zero, suc, ◌+◌, ◌*◌, ◌/◌, ◌%◌, ◌^◌, String, Bool, true, false, ◌&&◌, Option, none, some, List,
  [], ◌∷◌, ◌++◌, drop, eqb, ◌≡◌, if◌then◌else◌,
}

abbrev pub direction_b2a : ℕ
direction_b2a = 0

abbrev pub direction_a2b : ℕ
direction_a2b = 1

-- `view.setUint32(offset, v, false)`: four bytes, the highest first.
unfoldable pub be32 : ℕ → List ℕ
be32 v = v / 0x1000000 % 256 ∷ v / 0x10000 % 256 ∷ v / 0x100 % 256 ∷ v % 256 ∷ []

-- direction(1) || counter(8 bytes BE) || padding(3 zeros). `counter >>> 0` is the counter mod 2 ^ 32.
unfoldable pub build_nonce : ℕ → ℕ → List ℕ
build_nonce direction counter =
    direction % 256
    ∷ (be32 (counter / 0x100000000) ++ (be32 (counter % 0x100000000) ++ 0 ∷ 0 ∷ 0 ∷ []))

-- The loop of `decrypt` that compares the data's first bytes with the nonce expected; a byte that
-- is not there is unequal to any.
unfoldable pub begins_with : List ℕ → List ℕ → Bool
begins_with [] xs = true
begins_with (n ∷ ns) [] = false
begins_with (n ∷ ns) (x ∷ xs) = eqb x n && begins_with ns xs

-- `crypto.subtle.encrypt` and `decrypt` for AES-GCM: key, iv and data. A failed decryption throws.
pub record AesGcm : Type 1 where
  pub Key : Type 0
  pub seal : Key → List ℕ → List ℕ → List ℕ
  pub unseal : Key → List ℕ → List ℕ → Option (List ℕ)
  pub unseal-seal : (k : Key) (iv plain : List ℕ) → unseal k iv (seal k iv plain) ≡ some plain

module _ (gcm : AesGcm) where
  open gcm use {Key, seal, unseal}

  -- nonce(12) || ciphertext and tag.
  unfoldable pub encrypt : Key → List ℕ → ℕ → ℕ → List ℕ
  encrypt key plain direction counter =
      build_nonce direction counter ++ seal key (build_nonce direction counter) plain

  -- `none` is an exception: a nonce that does not match, or a tag that does not.
  unfoldable pub decrypt : Key → List ℕ → ℕ → ℕ → Option (List ℕ)
  decrypt key bytes direction counter =
      let nonce = build_nonce direction counter in
      if begins_with nonce bytes then unseal key nonce (drop 12 bytes) else none

-- The texts that are hashed, signed and authenticated. `utf8` is `TextEncoder.encode`.
module _ (utf8 : String → List ℕ) where
  -- What the salt of the session keys is the hash of.
  unfoldable pub salt_input : List ℕ → List ℕ → List ℕ
  salt_input browser_pub agent_pub =
      utf8 "browser:" ++ (browser_pub ++ (utf8 "agent:" ++ agent_pub))

  unfoldable pub sign_data : List ℕ → List ℕ → String → List ℕ
  sign_data agent_pub browser_pub session_id =
      utf8 "rttys-e2e-keyex:" ++ (agent_pub ++ (browser_pub ++ utf8 session_id))

  unfoldable pub resize_data : String → ℕ → ℕ → List ℕ
  resize_data session_id cols rows =
      utf8 "pty.resize" ++ (utf8 session_id ++ (be32 cols ++ be32 rows))

  unfoldable pub close_data : String → List ℕ
  close_data session_id = utf8 "pty.close" ++ utf8 session_id
