-- ===== src/E2e/Transcripts.antt =====
-- The transcripts that are signed or authenticated: what they bind.
use mathlib.Core.List.{append_cancel_left}
use remote_ttys.Base.{
  ℕ, ◌%◌, ◌<◌, String, List, [], ◌∷◌, ◌++◌, length, length-append, ◌≡◌, ◌≢◌, refl, ap, sym, ◌∙◌,
  arith,
}
use remote_ttys.E2e.{be32, sign_data, resize_data}
use remote_ttys.E2e.Nonce.{read32, read32-be32}
use remote_ttys.Base.Ints.{pos, min_ℤ, max_ℤ}
use remote_ttys.Relay.Router.Validate.{clamp_size}

-- Where two splits have parts of equal lengths in front, the parts are equal.
append_split :
    (xs ys xs' ys' : List ℕ)
    → length xs ≡ length xs'
    → xs ++ ys ≡ xs' ++ ys'
    → (xs ≡ xs') × (ys ≡ ys')
append_split [] ys [] ys' same p = (refl, p)
append_split [] ys (x ∷ xs') ys' same p = absurd (omega arith)
append_split (x ∷ xs) ys [] ys' same p = absurd (omega arith)
append_split (x ∷ xs) ys (x' ∷ xs') ys' same p =
    let rest = append_split xs ys xs' ys' (omega arith) (ground (arith, p)) in
    (ground (arith, rest.0, p), rest.1)

length-size : (c r : ℕ) → length (be32 c ++ be32 r) ≡ 8
unfolding be32
length-size c r = refl

abbrev drop4 : List ℕ → List ℕ
drop4 (a ∷ b ∷ c ∷ d ∷ rest) = rest
drop4 _ = []

drop4-be32 : (v : ℕ) (rest : List ℕ) → drop4 (be32 v ++ rest) ≡ rest
unfolding be32
drop4-be32 v rest = refl

read32-last : (v : ℕ) → read32 (be32 v) ≡ v % 0x100000000
unfolding be32
read32-last v = omega arith

sizes_equal :
    (c r c' r' : ℕ)
    → c < 0x100000000
    → r < 0x100000000
    → c' < 0x100000000
    → r' < 0x100000000
    → be32 c ++ be32 r ≡ be32 c' ++ be32 r'
    → (c ≡ c') × (r ≡ r')
sizes_equal c r c' r' hc hr hc' hr' p = (
  omega (arith, ap read32 p, read32-be32 c (be32 r), read32-be32 c' (be32 r')),
  omega (
    arith,
    ap read32 (sym (drop4-be32 c (be32 r)) ∙ (ap drop4 p ∙ drop4-be32 c' (be32 r'))),
    read32-last r,
    read32-last r',
  ),
)

module _ (utf8 : String → List ℕ) (utf8_injective : (s t : String) → utf8 s ≡ utf8 t → s ≡ t) where
  -- Equal signed texts have the same agent key, browser key and session, if the keys have 65 bytes
  -- and the encoding of texts is injective.
  pub sign_data_injective :
      (a b a' b' : List ℕ) (s s' : String)
      → length a ≡ 65
      → length a' ≡ 65
      → length b ≡ 65
      → length b' ≡ 65
      → sign_data utf8 a b s ≡ sign_data utf8 a' b' s'
      → (a ≡ a') × (b ≡ b') × (s ≡ s')
  unfolding sign_data
  sign_data_injective a b a' b' s s' la la' lb lb' p =
      let keys = append_split a _ a' _ (la ∙ sym la') (append_cancel_left _ _ _ p) in
      let rest = append_split b _ b' _ (lb ∙ sym lb') keys.1 in
      (keys.0, rest.0, utf8_injective s s' rest.1)

  -- Equal authenticated texts of a resize have the same session and size, if sizes have 32 bits and
  -- the encoding of texts is injective.
  pub resize_data_injective :
      (s s' : String) (c r c' r' : ℕ)
      → c < 0x100000000
      → r < 0x100000000
      → c' < 0x100000000
      → r' < 0x100000000
      → resize_data utf8 s c r ≡ resize_data utf8 s' c' r'
      → (s ≡ s') × (c ≡ c') × (r ≡ r')
  unfolding resize_data
  resize_data_injective s s' c r c' r' hc hr hc' hr' p =
      let tail = append_cancel_left _ _ _ p in
      let lengths : length (utf8 s) ≡ length (utf8 s') = omega (
        arith,
        ap length tail,
        length-append (utf8 s) (be32 c ++ be32 r),
        length-append (utf8 s') (be32 c' ++ be32 r'),
        length-size c r,
        length-size c' r',
      ) in
      let parts = append_split (utf8 s) _ (utf8 s') _ lengths tail in
      let sizes = sizes_equal c r c' r' hc hr hc' hr' parts.1 in
      (utf8_injective s s' parts.0, sizes.0, sizes.1)

-- The relay clamps the size of a resize and passes its code on unchanged: of a terminal wider than
-- 500 columns, with sizes of 32 bits, the agent gets a size other than the one that the code was computed for.
pub resize_data-clamp_size :
    (utf8 : String → List ℕ) (s : String) (cols rows clamped : ℕ)
    → 500 < cols
    → cols < 0x100000000
    → rows < 0x100000000
    → clamp_size (pos cols) ≡ pos clamped
    → resize_data utf8 s clamped rows ≢ resize_data utf8 s cols rows
unfolding resize_data clamp_size min_ℤ max_ℤ
resize_data-clamp_size utf8 s cols rows clamped wide hc hr e same =
    let cut : clamped ≡ 500 = ground arith in
    let sizes =
      sizes_equal clamped rows cols rows (omega arith) hr hc hr
        (append_cancel_left _ _ _ (append_cancel_left _ _ _ same)) in
    omega (arith, sizes.0)
