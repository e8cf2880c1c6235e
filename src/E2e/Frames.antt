-- ===== src/E2e/Frames.antt =====
-- Sealing and opening a frame: the round trip, and frames that are out of turn.
use remote_ttys.Base.{
  ℕ, ◌<◌, true, none, some, List, [], ◌∷◌, ◌++◌, drop, length, ◌≡◌, ◌≢◌, ◌⊎◌, refl, subst, sym, ◌∙◌,
  inl, inr, Bool-cases, arith,
}
use remote_ttys.E2e.{AesGcm, be32, build_nonce, begins_with, encrypt, decrypt}
use remote_ttys.E2e.Nonce.{build_nonce_injective}

length-build_nonce : (d c : ℕ) → length (build_nonce d c) ≡ 12
unfolding build_nonce be32
length-build_nonce d c = refl

begins_with-append : (ns xs : List ℕ) → begins_with ns (ns ++ xs) ≡ true
unfolding begins_with
begins_with-append [] xs = refl
begins_with-append (n ∷ ns) xs = ground (arith, begins_with-append ns xs)

drop-append : (ns xs : List ℕ) → drop (length ns) (ns ++ xs) ≡ xs
drop-append [] xs = refl
drop-append (n ∷ ns) xs = drop-append ns xs

-- Lists of one length, one of which begins the other's extension, are one list.
begins_with-eq :
    (ns ms xs : List ℕ) → length ns ≡ length ms → begins_with ns (ms ++ xs) ≡ true → ns ≡ ms
unfolding begins_with
begins_with-eq [] [] xs same h = refl
begins_with-eq [] (m ∷ ms) xs same h = absurd (omega arith)
begins_with-eq (n ∷ ns) [] xs same h = absurd (omega arith)
begins_with-eq (n ∷ ns) (m ∷ ms) xs same h = ground (arith, begins_with-eq ns ms xs, same, h)

module _ (gcm : AesGcm) where
  open gcm use {Key, seal, unseal, unseal-seal}

  -- A frame opens under the key, the direction and the counter that it was sealed with.
  pub decrypt-encrypt :
      (key : Key) (plain : List ℕ) (d c : ℕ)
      → decrypt gcm key (encrypt gcm key plain d c) d c ≡ some plain
  unfolding decrypt encrypt
  decrypt-encrypt key plain d c =
      rw (begins_with-append (build_nonce d c) (seal key (build_nonce d c) plain))
        (rw (dropped (seal key (build_nonce d c) plain)) (unseal-seal key (build_nonce d c) plain))
    where
      dropped : (xs : List ℕ) → drop 12 (build_nonce d c ++ xs) ≡ xs
      dropped xs =
          subst (λ n. drop n (build_nonce d c ++ xs) ≡ xs) (length-build_nonce d c)
            (drop-append (build_nonce d c) xs)

  -- If directions are bytes and counters have 64 bits: a frame of another counter or direction is refused, whatever the key: a frame that is repeated,
  -- left out or sent back does not open.
  pub decrypt-encrypt_ne :
      (key key' : Key) (plain : List ℕ) (d c d' c' : ℕ)
      → d < 256
      → d' < 256
      → c < 0x10000000000000000
      → c' < 0x10000000000000000
      → (d ≢ d') ⊎ (c ≢ c')
      → decrypt gcm key' (encrypt gcm key plain d c) d' c' ≡ none
  unfolding decrypt encrypt
  decrypt-encrypt_ne key key' plain d c d' c' hd hd' hc hc' differ =
      elim (Bool-cases (begins_with (build_nonce d' c') (encrypt gcm key plain d c))) [
        | inl match_ ↦
            let same = build_nonce_injective d' c' d c hd' hd hc' hc (
              begins_with-eq (build_nonce d' c') (build_nonce d c) _
                (length-build_nonce d' c' ∙ sym (length-build_nonce d c)) match_) in
            absurd (clash differ same)
        | inr fails ↦ rw fails
      ]
    where
      clash : (d ≢ d') ⊎ (c ≢ c') → (d' ≡ d) × (c' ≡ c) → ⊥
      clash (inl ne) (p, q) = ne (sym p)
      clash (inr ne) (p, q) = ne (sym q)
