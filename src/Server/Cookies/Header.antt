-- ===== src/Server/Cookies/Header.antt =====
-- A header as a browser writes it: `name=value` pairs, joined by `; `. The cookie that is found is
-- the first of its name.
use remote_ttys.Base.{
  ℕ, Bool, true, false, Option, none, some, List, [], ◌∷◌, ◌++◌, All, ◌≡◌, ◌≢◌, refl, ap, ◌∙◌, inl,
  inr, Bool-cases, arith, eqb, if◌then◌else◌,
}
use remote_ttys.Relay.Router.Validate.{is_space}
use remote_ttys.Server.Cookies.{
  strip_prefix, until_semicolon, skip_spaces, after_semicolon, match_cookie,
}

-- A name has no =, no ; and no white space; a value has no semicolon.
abbrev pub IsName : List ℕ → Type 0
IsName = All (λ c. (c ≢ 0x3d) × (c ≢ 0x3b) × (is_space c ≡ false))

abbrev pub IsValue : List ℕ → Type 0
IsValue = All (λ c. c ≢ 0x3b)

abbrev pub Cookie : Type 0
Cookie = List ℕ × List ℕ

abbrev pub IsCookie : Cookie → Type 0
IsCookie (name, value) = IsName name × IsValue value

abbrev pub pair_text : Cookie → List ℕ → List ℕ
pair_text (name, value) rest = name ++ 0x3d ∷ (value ++ rest)

-- What stands behind the first pair.
abbrev pub others_text : List Cookie → List ℕ
others_text [] = []
others_text (c ∷ cs) = 0x3b ∷ 0x20 ∷ pair_text c (others_text cs)

abbrev pub header_text : List Cookie → List ℕ
header_text [] = []
header_text (c ∷ cs) = pair_text c (others_text cs)

abbrev pub same_name : List ℕ → List ℕ → Bool
same_name [] [] = true
same_name [] (y ∷ ys) = false
same_name (x ∷ xs) [] = false
same_name (x ∷ xs) (y ∷ ys) = if eqb y x then same_name xs ys else false

abbrev pub find_cookie : List ℕ → List Cookie → Option (List ℕ)
find_cookie name [] = none
find_cookie name ((k, v) ∷ cs) = if same_name name k then some v else find_cookie name cs

strip_prefix-name :
    (name k rest : List ℕ)
    → IsName name
    → IsName k
    → strip_prefix (name ++ 0x3d ∷ []) (k ++ 0x3d ∷ rest)
      ≡ (if same_name name k then some rest else none)
unfolding strip_prefix
strip_prefix-name [] [] rest hn hk = refl
strip_prefix-name [] (c ∷ k) rest hn hk = ground arith
strip_prefix-name (n ∷ name) [] rest hn hk = ground arith
strip_prefix-name (n ∷ name) (c ∷ k) rest hn hk =
    ground (arith, strip_prefix-name name k rest hn.1 hk.1)

until_semicolon-append :
    (value : List ℕ) (cs : List Cookie)
    → IsValue value
    → until_semicolon (value ++ others_text cs) ≡ value
unfolding until_semicolon
until_semicolon-append [] [] h = refl
until_semicolon-append [] (c ∷ cs) h = refl
until_semicolon-append (x ∷ xs) cs h = ground (arith, until_semicolon-append xs cs h.1)

-- Within a name or a value no cookie begins.
after_semicolon-plain :
    (key plain rest : List ℕ)
    → IsValue plain
    → after_semicolon key (plain ++ rest) ≡ after_semicolon key rest
unfolding after_semicolon
after_semicolon-plain key [] rest h = refl
after_semicolon-plain key (x ∷ xs) rest h = ground (arith, after_semicolon-plain key xs rest h.1)

skip_spaces-name : (k rest : List ℕ) → IsName k → skip_spaces (k ++ 0x3d ∷ rest) ≡ k ++ 0x3d ∷ rest
unfolding skip_spaces is_space
skip_spaces-name [] rest h = refl
skip_spaces-name (x ∷ k) rest h = ground arith

name-IsValue : (k : List ℕ) → IsName k → IsValue k
name-IsValue [] h = tt
name-IsValue (x ∷ k) h = (h.0.1, name-IsValue k h.1)

-- Past a pair the search goes on with the next.
after_semicolon-pair :
    (key : List ℕ) (k v rest : List ℕ)
    → IsName k
    → IsValue v
    → after_semicolon key (k ++ 0x3d ∷ (v ++ rest)) ≡ after_semicolon key rest
unfolding after_semicolon
after_semicolon-pair key k v rest hk hv =
    after_semicolon-plain key k (0x3d ∷ (v ++ rest)) (name-IsValue k hk)
    ∙ after_semicolon-plain key v rest hv

after_semicolon-others :
    (name : List ℕ) (cs : List Cookie)
    → IsName name
    → All IsCookie cs
    → after_semicolon (name ++ 0x3d ∷ []) (others_text cs) ≡ find_cookie name cs
unfolding after_semicolon skip_spaces is_space
after_semicolon-others name [] hn hs = refl
after_semicolon-others name ((k, v) ∷ cs) hn ((hk, hv), hs) =
    rw (skip_spaces-name k (v ++ others_text cs) hk) (
      rw (strip_prefix-name name k (v ++ others_text cs) hn hk)
        (elim (Bool-cases (same_name name k)) [
          | inl t ↦ rw t (ap some (until_semicolon-append v cs hv))
          | inr f ↦ rw f (
              after_semicolon-pair (name ++ 0x3d ∷ []) k v (others_text cs) hk hv
              ∙ after_semicolon-others name cs hn hs)
        ]))

after_semicolon-header :
    (name k v : List ℕ) (cs : List Cookie)
    → IsName name
    → IsName k
    → IsValue v
    → All IsCookie cs
    → after_semicolon (name ++ 0x3d ∷ []) (pair_text (k, v) (others_text cs)) ≡ find_cookie name cs
after_semicolon-header name k v cs hn hk hv hs =
    after_semicolon-pair (name ++ 0x3d ∷ []) k v (others_text cs) hk hv
    ∙ after_semicolon-others name cs hn hs

-- In a header of pairs `name=value`, joined by `; `, whose names have no =, no ; and no white space and
-- whose values have no ;, the cookie that is matched for such a name is the value of the first pair
-- with the name, and none where there is no such pair.
pub match_cookie-header_text :
    (name : List ℕ) (cs : List Cookie)
    → IsName name
    → All IsCookie cs
    → match_cookie (name ++ 0x3d ∷ []) (header_text cs) ≡ find_cookie name cs
unfolding match_cookie strip_prefix after_semicolon
match_cookie-header_text [] [] hn hs = refl
match_cookie-header_text (n ∷ name) [] hn hs = refl
match_cookie-header_text name ((k, v) ∷ cs) hn ((hk, hv), hs) =
    rw (match_cookie, strip_prefix-name name k (v ++ others_text cs) hn hk)
      (elim (Bool-cases (same_name name k)) [
        | inl t ↦ rw t (ap some (until_semicolon-append v cs hv))
        | inr f ↦ rw f (after_semicolon-header name k v cs hn hk hv hs)
      ])
