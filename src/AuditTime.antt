-- ===== src/AuditTime.antt =====
-- packages/web/src/lib/audit.ts: how long ago an entry was. A text is the list of its character
-- codes where it is tested; `Date`'s parser is a parameter, milliseconds since 1970.
pub mod Zone
pub mod Tests
use remote_ttys.Base.{
  ℕ, ◌/◌, String, Bool, true, false, ◌&&◌, ◌||◌, Option, none, some, List, [], ◌∷◌, ◌++◌, any, eqb,
  ltb, leb, if◌then◌else◌,
}
use remote_ttys.Base.Ints.{ℤ, pos, negsuc, ◌-ℤ◌}
use remote_ttys.Base.Texts.{truthy, codes, show_ℕ, ◌<>◌}

abbrev pub is_digit : ℕ → Bool
is_digit c = leb 0x30 c && leb c 0x39

-- The class [zZ+].
unfoldable pub is_zone : ℕ → Bool
is_zone c = eqb c 0x7a || eqb c 0x5a || eqb c 0x2b

-- \d{2}:\d{2} and nothing else.
unfoldable pub is_pair : List ℕ → Bool
is_pair (a ∷ b ∷ c ∷ d ∷ e ∷ []) =
    is_digit a && is_digit b && eqb c 0x3a && is_digit d && is_digit e
is_pair _ = false

-- \d{2}:\d{2}$
unfoldable pub ends_in_pair : List ℕ → Bool
ends_in_pair [] = false
ends_in_pair (c ∷ cs) = is_pair (c ∷ cs) || ends_in_pair cs

-- The test of `parseServerDate`.
unfoldable pub has_zone : List ℕ → Bool
has_zone cs = any is_zone cs || ends_in_pair cs

unfoldable pub parse_server_date : (String → ℤ) → String → ℤ
parse_server_date parse iso = if has_zone (codes iso) then parse iso else parse (iso <> "Z")

-- From a number of whole seconds on.
unfoldable pub ago : ℕ → String
ago seconds =
    if ltb seconds 60
    then "just now"
    else if ltb (seconds / 60) 60
    then show_ℕ (seconds / 60) <> "m ago"
    else if ltb (seconds / 60 / 60) 24
    then show_ℕ (seconds / 60 / 60) <> "h ago"
    else show_ℕ (seconds / 60 / 60 / 24) <> "d ago"

-- A time to come has a negative number of seconds.
unfoldable pub since : ℤ → String
since (pos ms) = ago (ms / 1000)
since (negsuc n) = "just now"

unfoldable pub relative_time : (String → ℤ) → ℤ → Option String → String → String
relative_time parse now iso when_null = elim (truthy iso) [
  | none ↦ when_null
  | some text ↦ since (now -ℤ parse_server_date parse text)
]
