-- ===== src/Osc.antt =====
-- packages/web/src/lib/parseOsc9_4.ts: the progress sequences in a terminal's output. Bytes are
-- numbers. The loop's index is the rest of the data from there: `data[i + k]` is its k-th byte.
pub mod Tests
pub mod Parse
use remote_ttys.Base.{
  ℕ, zero, suc, ◌+◌, ◌-◌, ◌*◌, Bool, true, false, not, ◌&&◌, ◌||◌, Option, none, some, List, [],
  ◌∷◌, length, ltb, leb, eqb, if◌then◌else◌,
}

pub record ProgressInfo : Type 0 where
  pub state : ℕ
  pub value : ℕ

abbrev pub is_digit : ℕ → Bool
is_digit c = leb 0x30 c && leb c 0x39

-- `parseDigits`, on from the value so far.
unfoldable pub parse_digits : ℕ → List ℕ → ℕ × List ℕ
parse_digits val [] = (val, [])
parse_digits val (c ∷ rest) =
    let more = parse_digits (val * 10 + (c - 0x30)) rest in
    if is_digit c then more else (val, c ∷ rest)

-- The bytes are there and begin with a digit: the digits' value, and what follows them.
unfoldable pub number : List ℕ → Option (ℕ × List ℕ)
number [] = none
number (c ∷ rest) = if is_digit c then some (parse_digits 0 (c ∷ rest)) else none

-- One given byte.
unfoldable pub expect : ℕ → List ℕ → Option (List ℕ)
expect b [] = none
expect b (c ∷ rest) = if eqb c b then some rest else none

infixl 5 ◌>>=◌
abbrev ◌>>=◌ {ℓ κ} : {A : Type ℓ} {B : Type κ} → Option A → (A → Option B) → Option B
none >>= k = none
some a >>= k = k a

-- The end of a sequence: BEL, or ESC and a backslash.
unfoldable pub terminator : List ℕ → Option (List ℕ)
terminator [] = none
terminator (c ∷ rest) =
    if eqb c 0x07 then some rest else if eqb c 0x1b then expect 0x5c rest else none

abbrev at_most : ℕ → ℕ → Option (Unit {0})
at_most n k = if leb k n then some tt else none

-- `] 9 ; 4 ; state ; value` and its end, from behind the ESC.
unfoldable pub sequence : List ℕ → Option (ProgressInfo × List ℕ)
sequence xs = do
  x1 ← expect 0x5d xs
  x2 ← expect 0x39 x1
  x3 ← expect 0x3b x2
  x4 ← expect 0x34 x3
  x5 ← expect 0x3b x4
  (state, x6) ← number x5
  _ ← at_most 4 state
  x7 ← expect 0x3b x6
  (value, x8) ← number x7
  x9 ← terminator x8
  some (record { state = state; value = if leb value 100 then value else 100 }, x9)

-- The loop, with the last match so far. Each round drops a byte at least.
unfoldable pub scan : ℕ → List ℕ → Option ProgressInfo → Option ProgressInfo
scan zero xs result = result
scan (suc f) [] result = result
scan (suc f) (c ∷ rest) result = elim (eqb c 0x1b) [
  | false ↦ scan f rest result
  | true ↦ elim (leb (length (c ∷ rest)) 9) [
    | true ↦ result
    | false ↦ elim (sequence rest) [
      | none ↦ scan f rest result
      | some (info, after) ↦ scan f after (some info)
    ]
  ]
]

unfoldable pub parse_osc9_4 : List ℕ → Option ProgressInfo
parse_osc9_4 xs = scan (length xs) xs none
