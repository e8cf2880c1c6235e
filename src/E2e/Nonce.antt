-- ===== src/E2e/Nonce.antt =====
-- Nonces: two frames of one key never share one, as long as their direction or counter differs.
use remote_ttys.Base.{ℕ, ◌+◌, ◌*◌, ◌/◌, ◌%◌, ◌<◌, List, [], ◌∷◌, ◌++◌, ◌≡◌, ap, arith}
use remote_ttys.E2e.{be32, build_nonce}

-- The number that four bytes stand for, and that of a nonce's counter.
abbrev pub read32 : List ℕ → ℕ
read32 (a ∷ b ∷ c ∷ d ∷ rest) = ((a * 256 + b) * 256 + c) * 256 + d
read32 _ = 0

pub read32-be32 : (v : ℕ) (rest : List ℕ) → read32 (be32 v ++ rest) ≡ v % 0x100000000
unfolding be32
read32-be32 v rest = omega arith

abbrev direction_of : List ℕ → ℕ
direction_of [] = 0
direction_of (d ∷ rest) = d

abbrev high_of : List ℕ → ℕ
high_of (d ∷ rest) = read32 rest
high_of _ = 0

abbrev low_of : List ℕ → ℕ
low_of (d ∷ a ∷ b ∷ c ∷ e ∷ rest) = read32 rest
low_of _ = 0

high-build_nonce : (d c : ℕ) → c < 0x10000000000000000 → high_of (build_nonce d c) ≡ c / 0x100000000
unfolding build_nonce
high-build_nonce d c h = omega (arith, read32-be32 (c / 0x100000000))

low-build_nonce : (d c : ℕ) → low_of (build_nonce d c) ≡ c % 0x100000000
unfolding build_nonce be32
low-build_nonce d c = omega arith

-- A nonce tells its direction and its counter, if the direction is a byte and the counter has 64
-- bits.
pub build_nonce_injective :
    (d c d' c' : ℕ)
    → d < 256
    → d' < 256
    → c < 0x10000000000000000
    → c' < 0x10000000000000000
    → build_nonce d c ≡ build_nonce d' c'
    → (d ≡ d') × (c ≡ c')
build_nonce_injective d c d' c' hd hd' hc hc' same = (
  omega (arith, direction),
  omega (
    arith,
    ap high_of same,
    ap low_of same,
    high-build_nonce d c hc,
    high-build_nonce d' c' hc',
    low-build_nonce d c,
    low-build_nonce d' c',
  ),
)
  where
    direction : d % 256 ≡ d' % 256
    direction = unfold build_nonce in ap direction_of same
