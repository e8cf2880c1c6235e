-- ===== src/AuditTime/Zone.antt =====
-- Which times the test of `parseServerDate` takes for times with a zone.
use remote_ttys.Base.{ℕ, true, String, List, [], ◌∷◌, ◌++◌, ◌≡◌, arith}
use remote_ttys.Base.Ints.{ℤ}
use remote_ttys.Base.Texts.{codes}
use remote_ttys.AuditTime.{is_digit, is_pair, ends_in_pair, has_zone, parse_server_date}

module _ (a b d e : ℕ) (da : is_digit a ≡ true) (db : is_digit b ≡ true) (dd : is_digit d ≡ true)
    (de : is_digit e ≡ true) where
  ends_in_pair-append : (xs : List ℕ) → ends_in_pair (xs ++ a ∷ b ∷ 0x3a ∷ d ∷ e ∷ []) ≡ true
  unfolding ends_in_pair is_pair
  ends_in_pair-append [] = ground arith
  ends_in_pair-append (x ∷ xs) = ground (arith, ends_in_pair-append xs)

  -- A text that ends in two digits, a colon and two digits, as every time YYYY-MM-DD HH:MM:SS of the
  -- server does, is parsed as it is, without a zone.
  pub parse_server_date_bare :
      (parse : String → ℤ) (iso : String) (xs : List ℕ)
      → codes iso ≡ xs ++ a ∷ b ∷ 0x3a ∷ d ∷ e ∷ []
      → parse_server_date parse iso ≡ parse iso
  unfolding parse_server_date has_zone
  parse_server_date_bare parse iso xs shape =
      let pair : ends_in_pair (codes iso) ≡ true = rw shape (ends_in_pair-append xs) in
      rw (parse_server_date, pair) (ground arith)
