-- ===== src/Server/Cookies.antt =====
-- packages/relay/src/index.ts, `parseCookie`. A header is the list of its characters' codes.
pub mod Header
use remote_ttys.Base.{
  ℕ, Bool, true, false, Option, none, some, List, [], ◌∷◌, ◌++◌, eqb, if◌then◌else◌,
}
use remote_ttys.Relay.Router.Validate.{is_space}

-- What follows a text at the front of another.
unfoldable pub strip_prefix : List ℕ → List ℕ → Option (List ℕ)
strip_prefix [] xs = some xs
strip_prefix (p ∷ ps) [] = none
strip_prefix (p ∷ ps) (x ∷ xs) = if eqb x p then strip_prefix ps xs else none

-- `[^;]*`
unfoldable pub until_semicolon : List ℕ → List ℕ
until_semicolon [] = []
until_semicolon (x ∷ xs) = if eqb x 0x3b then [] else x ∷ until_semicolon xs

-- `\s*`
unfoldable pub skip_spaces : List ℕ → List ℕ
skip_spaces [] = []
skip_spaces (x ∷ xs) = if is_space x then skip_spaces xs else x ∷ xs

-- `;\s*` and the name with its =, at the first place where they match.
unfoldable pub after_semicolon : List ℕ → List ℕ → Option (List ℕ)
after_semicolon key [] = none
after_semicolon key (x ∷ xs) =
    let rest = after_semicolon key xs in
    if eqb x 0x3b
    then elim (strip_prefix key (skip_spaces xs)) [
      | some value ↦ some (until_semicolon value)
      | none ↦ rest
    ]
    else rest

-- `(?:^|;\s*)name=([^;]*)`, where `key` is the name with its =; the two names of the code hold no
-- character that a regular expression reads otherwise.
unfoldable pub match_cookie : List ℕ → List ℕ → Option (List ℕ)
match_cookie key header = elim (strip_prefix key header) [
  | some value ↦ some (until_semicolon value)
  | none ↦ after_semicolon key header
]
