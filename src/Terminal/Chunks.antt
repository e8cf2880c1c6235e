-- ===== src/Terminal/Chunks.antt =====
-- packages/web/src/components/TerminalView.tsx: the chunks of an image.
use remote_ttys.Base.{
  ℕ, zero, suc, ◌+◌, ◌-◌, ◌*◌, ◌/◌, ◌≤◌, min, List, [], ◌∷◌, ◌++◌, take, drop, length, ◌≡◌, refl,
  ap, ◌∙◌, sym, arith,
}
use remote_ttys.Terminal.Upload.{chunk_size, chunk_count, chunk_at}

-- The chunks of the rounds from `i` on, one for each round.
unfoldable pub chunks_from : ℕ → ℕ → List ℕ → List (List ℕ)
chunks_from zero i buffer = []
chunks_from (suc left) i buffer = chunk_at i buffer ∷ chunks_from left (i + 1) buffer

abbrev pub concat : List (List ℕ) → List ℕ
concat [] = []
concat (xs ∷ xss) = xs ++ concat xss

split_at : (k n : ℕ) (xs : List ℕ) → k ≡ min n (length xs) → take k xs ++ drop n xs ≡ xs
split_at zero zero xs h = refl
split_at zero (suc n) [] h = refl
split_at zero (suc n) (x ∷ xs) h = absurd (omega (arith, h))
split_at (suc k) zero xs h = absurd (omega (arith, h))
split_at (suc k) (suc n) [] h = absurd (omega (arith, h))
split_at (suc k) (suc n) (x ∷ xs) h = ap (λ ys. x ∷ ys) (split_at k n xs (omega (arith, h)))

drop-add : (s n : ℕ) (xs : List ℕ) → drop (s + n) xs ≡ drop n (drop s xs)
drop-add zero n xs = let same : zero + n ≡ n = omega arith in ap (λ m. drop m xs) same
drop-add (suc s) n [] = let same : suc s + n ≡ suc (s + n) = omega arith in rw same (drop-nil n)
  where
    drop-nil : (m : ℕ) → [] ≡ drop {A = ℕ} m []
    drop-nil zero = refl
    drop-nil (suc m) = refl
drop-add (suc s) n (x ∷ xs) =
    let same : suc s + n ≡ suc (s + n) = omega arith in
    ap (λ m. drop m (x ∷ xs)) same ∙ drop-add s n xs

length-drop : (s : ℕ) (xs : List ℕ) → length (drop s xs) ≡ length xs - s
length-drop zero xs = omega arith
length-drop (suc s) [] = omega arith
length-drop (suc s) (x ∷ xs) = omega (arith, length-drop s xs)

slice-drop :
    (s n : ℕ) (xs : List ℕ)
    → take (min (s + n) (length xs) - s) (drop s xs) ++ drop (s + n) xs ≡ drop s xs
slice-drop s n xs =
    ap (λ ys. take (min (s + n) (length xs) - s) (drop s xs) ++ ys) (drop-add s n xs)
    ∙ split_at _ n (drop s xs) (omega (arith, length-drop s xs))

drop-all : (n : ℕ) (xs : List ℕ) → length xs ≤ n → drop n xs ≡ []
drop-all zero [] h = refl
drop-all zero (x ∷ xs) h = absurd (omega arith)
drop-all (suc n) [] h = refl
drop-all (suc n) (x ∷ xs) h = drop-all n xs (omega arith)

chunks_from-concat :
    (left i : ℕ) (buffer : List ℕ)
    → length buffer ≤ (i + left) * chunk_size
    → concat (chunks_from left i buffer) ≡ drop (i * chunk_size) buffer
unfolding chunks_from chunk_at
chunks_from-concat zero i buffer h = sym (drop-all (i * chunk_size) buffer (omega arith))
chunks_from-concat (suc left) i buffer h =
    let next : (i + 1) * chunk_size ≡ i * chunk_size + chunk_size = omega arith in
    ap (λ ys. chunk_at i buffer ++ ys)
      (chunks_from-concat left (i + 1) buffer (omega (arith, h)) ∙ ap (λ m. drop m buffer) next)
    ∙ slice-drop (i * chunk_size) chunk_size buffer

-- The chunks of an image, in their order, are the image.
pub chunks-concat :
    (buffer : List ℕ) → concat (chunks_from (chunk_count (length buffer)) 0 buffer) ≡ buffer
unfolding chunk_count
chunks-concat buffer =
    let enough : length buffer ≤ (0 + (length buffer + 32768 - 1) / 32768) * 32768 = omega arith in
    chunks_from-concat (chunk_count (length buffer)) 0 buffer enough
    ∙ (let none_ : 0 * chunk_size ≡ 0 = omega arith in ap (λ m. drop m buffer) none_)
