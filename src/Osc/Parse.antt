-- ===== src/Osc/Parse.antt =====
-- What the parser finds: states and values in range, and the last sequence of a well-formed stream.
use remote_ttys.Base.{
  ℕ, zero, suc, ◌+◌, ◌-◌, ◌*◌, ◌≤◌, ◌<◌, Bool, true, false, Option, none, some, List, [], ◌∷◌, ◌++◌,
  length, length-append, All, leb, eqb, ◌≡◌, ◌≢◌, refl, ap, ◌∙◌, inl, inr, Bool-cases, Option-cases,
  arith, if◌then◌else◌,
}
use remote_ttys.Osc.{
  ProgressInfo, is_digit, parse_digits, number, expect, terminator, sequence, scan, parse_osc9_4,
}

abbrev pub InRange : Option ProgressInfo → Type 0
InRange none = Unit
InRange (some info) = (info.state ≤ 4) × (info.value ≤ 100)

length-parse_digits : (v : ℕ) (xs : List ℕ) → length (parse_digits v xs).1 ≤ length xs
unfolding parse_digits
length-parse_digits v [] = omega arith
length-parse_digits v (c ∷ xs) = ground (arith, length-parse_digits (v * 10 + (c - 0x30)) xs)

sequence-InRange :
    (xs after : List ℕ) (info : ProgressInfo)
    → sequence xs ≡ some (info, after)
    → (info.state ≤ 4) × (info.value ≤ 100)
unfolding sequence
sequence-InRange xs after info found = ground arith

scan-InRange : (f : ℕ) (xs : List ℕ) (r : Option ProgressInfo) → InRange r → InRange (scan f xs r)
unfolding scan
scan-InRange zero xs r h = h
scan-InRange (suc f) [] r h = h
scan-InRange (suc f) (c ∷ xs) r h = elim (Bool-cases (eqb c 0x1b)) [
  | inr plain ↦ rw (plain, scan) (scan-InRange f xs r h)
  | inl escape ↦ elim (Bool-cases (leb (length (c ∷ xs)) 9)) [
    | inl short ↦ rw (escape, scan) (rw (short, scan) h)
    | inr long ↦ elim (Option-cases (sequence xs)) [
      | inl broken ↦ rw (escape, scan) (rw (long, scan) (rw (broken, scan) (scan-InRange f xs r h)))
      | inr ((info, after), found) ↦
          rw (escape, scan)
            (rw (long, scan)
              (rw (found, scan)
                (scan-InRange f after (some info) (sequence-InRange xs after info found))))
    ]
  ]
]

-- Whatever the bytes, a progress that is found has a state of 0 to 4 and a value of 0 to 100.
pub parse_osc9_4-InRange : (xs : List ℕ) → InRange (parse_osc9_4 xs)
unfolding parse_osc9_4
parse_osc9_4-InRange xs = scan-InRange (length xs) xs none tt

-- A stream of terminal output: text without ESC, and progress sequences.
pub data Chunk : Type 0 where
  text : List ℕ → Chunk
  progress : (state : ℕ) (digits : List ℕ) (bel : Bool) → Chunk

abbrev pub ending : Bool → List ℕ → List ℕ
ending true rest = 0x07 ∷ rest
ending false rest = 0x1b ∷ 0x5c ∷ rest

abbrev pub body : ℕ → List ℕ → Bool → List ℕ → List ℕ
body state digits bel rest =
    0x5d ∷ 0x39 ∷ 0x3b ∷ 0x34 ∷ 0x3b ∷ (0x30 + state) ∷ 0x3b ∷ (digits ++ ending bel rest)

abbrev pub render : List Chunk → List ℕ
render [] = []
render (text xs ∷ chunks) = xs ++ render chunks
render (progress state digits bel ∷ chunks) = 0x1b ∷ body state digits bel (render chunks)

abbrev pub digits_value : ℕ → List ℕ → ℕ
digits_value v [] = v
digits_value v (c ∷ cs) = digits_value (v * 10 + (c - 0x30)) cs

abbrev pub shown : ℕ → List ℕ → ProgressInfo
shown state digits = record {
  state = state;
  value = if leb (digits_value 0 digits) 100 then digits_value 0 digits else 100;
}

abbrev pub last_progress : List Chunk → Option ProgressInfo → Option ProgressInfo
last_progress [] r = r
last_progress (text xs ∷ chunks) r = last_progress chunks r
last_progress (progress state digits bel ∷ chunks) r =
    last_progress chunks (some (shown state digits))

-- Text has no ESC; a state is one digit from 0 to 4; a value has a digit at least.
abbrev pub IsGood : Chunk → Type 0
IsGood (text xs) = All (λ c. c ≢ 0x1b) xs
IsGood (progress state digits bel) =
    (state ≤ 4) × All (λ c. is_digit c ≡ true) digits × (0 < length digits)

parse_digits-append :
    (v : ℕ) (ds : List ℕ) (c : ℕ) (rest : List ℕ)
    → All (λ d. is_digit d ≡ true) ds
    → is_digit c ≡ false
    → parse_digits v (ds ++ c ∷ rest) ≡ (digits_value v ds, c ∷ rest)
unfolding parse_digits
parse_digits-append v [] c rest all stop = rw stop
parse_digits-append v (d ∷ ds) c rest (hit, all) stop =
    rw hit (parse_digits-append (v * 10 + (d - 0x30)) ds c rest all stop)

number-append :
    (ds : List ℕ) (bel : Bool) (rest : List ℕ)
    → All (λ d. is_digit d ≡ true) ds
    → 0 < length ds
    → number (ds ++ ending bel rest) ≡ some (digits_value 0 ds, ending bel rest)
unfolding number
number-append [] bel rest all pos = absurd (omega arith)
number-append (d ∷ ds) true rest all pos =
    rw all.0 (ap some (parse_digits-append 0 (d ∷ ds) 0x07 rest all refl))
number-append (d ∷ ds) false rest all pos =
    rw all.0 (ap some (parse_digits-append 0 (d ∷ ds) 0x1b (0x5c ∷ rest) all refl))

terminator-ending : (bel : Bool) (rest : List ℕ) → terminator (ending bel rest) ≡ some rest
unfolding terminator expect
terminator-ending true rest = refl
terminator-ending false rest = refl

state_digit :
    (state : ℕ) (rest : List ℕ)
    → state ≤ 4
    → number ((0x30 + state) ∷ 0x3b ∷ rest) ≡ some (state, 0x3b ∷ rest)
unfolding number parse_digits
state_digit state rest h = ground arith

sequence-body :
    (state : ℕ) (digits : List ℕ) (bel : Bool) (rest : List ℕ)
    → IsGood (progress state digits bel)
    → sequence (body state digits bel rest) ≡ some (shown state digits, rest)
unfolding sequence expect
sequence-body state digits bel rest (low, all, pos) = ground (
  arith,
  state_digit state (digits ++ ending bel rest),
  number-append digits bel rest all pos,
  terminator-ending bel rest,
)

scan-text :
    (f : ℕ) (xs ys : List ℕ) (r : Option ProgressInfo)
    → All (λ c. c ≢ 0x1b) xs
    → length (xs ++ ys) ≤ f
    → (g : ℕ) × (length ys ≤ g) × (scan f (xs ++ ys) r ≡ scan g ys r)
unfolding scan
scan-text f [] ys r plain h = (f, h, refl)
scan-text zero (c ∷ xs) ys r plain h = absurd (omega arith)
scan-text (suc f) (c ∷ xs) ys r (other, plain) h =
    let (g, room, same) = scan-text f xs ys r plain (omega arith) in
    let quiet : eqb c 0x1b ≡ false = ground (arith, other) in (g, room, rw (quiet, scan) same)

length-body :
    (state : ℕ) (digits : List ℕ) (bel : Bool) (rest : List ℕ)
    → 0 < length digits
    → (9 ≤ length (body state digits bel rest))
      × (length rest ≤ length (body state digits bel rest))
length-body state digits true rest pos = (
  omega (arith, length-append digits (0x07 ∷ rest)),
  omega (arith, length-append digits (0x07 ∷ rest)),
)
length-body state digits false rest pos = (
  omega (arith, length-append digits (0x1b ∷ 0x5c ∷ rest)),
  omega (arith, length-append digits (0x1b ∷ 0x5c ∷ rest)),
)

-- With fuel for every byte the loop finds the last sequence.
pub scan-render :
    (f : ℕ) (chunks : List Chunk) (r : Option ProgressInfo)
    → All IsGood chunks
    → length (render chunks) ≤ f
    → scan f (render chunks) r ≡ last_progress chunks r
unfolding scan
scan-render zero [] r good h = refl
scan-render (suc f) [] r good h = refl
scan-render f (text xs ∷ chunks) r (plain, good) h =
    let (g, room, same) = scan-text f xs (render chunks) r plain h in
    same ∙ scan-render g chunks r good room
scan-render zero (progress state digits bel ∷ chunks) r good h = absurd (omega arith)
scan-render (suc f) (progress state digits bel ∷ chunks) r (fine, good) h =
    let sizes = length-body state digits bel (render chunks) fine.2 in
    let long : leb (suc (length (body state digits bel (render chunks)))) 9 ≡ false =
      ground (arith, sizes.0) in
    rw (long, scan)
      (rw (sequence-body state digits bel (render chunks) fine, scan)
        (scan-render f chunks (some (shown state digits)) good (omega (arith, sizes.1))))

-- Of a stream of texts and progress sequences the parser gives the last sequence's state and value,
-- the value cut to 100, and nothing where there is no sequence.
pub parse_osc9_4-render :
    (chunks : List Chunk)
    → All IsGood chunks
    → parse_osc9_4 (render chunks) ≡ last_progress chunks none
unfolding parse_osc9_4
parse_osc9_4-render chunks good =
    scan-render (length (render chunks)) chunks none good (omega arith)
