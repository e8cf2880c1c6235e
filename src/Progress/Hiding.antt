-- ===== src/Progress/Hiding.antt =====
-- packages/web/src/hooks/useProgressBar.ts: how long a progress is shown.
use remote_ttys.Base.{
  true, false, ℕ, ◌+◌, ◌≤◌, ◌<◌, none, some, List, [], ◌∷◌, eqb, leb, ◌≡◌, ◌∙◌, refl, ap, arith,
}
use remote_ttys.Osc.{ProgressInfo, parse_osc9_4}
use remote_ttys.Progress.{ProgressBar, auto_hide_ms, show_info, feed, tick}

-- What the bar sees: bytes at a time, or the clock at a time.
pub data Sight : Type 0 where
  fed : ℕ → List ℕ → Sight
  clock : ℕ → Sight

unfoldable pub see : Sight → ProgressBar → ProgressBar
see (fed now bytes) bar = feed now bytes bar
see (clock now) bar = tick now bar

unfoldable pub watch : List Sight → ProgressBar → ProgressBar
watch [] bar = bar
watch (s ∷ rest) bar = watch rest (see s bar)

-- No bytes hold a progress, and the clock stays below `due`.
unfoldable pub IsQuiet : ℕ → List Sight → Type 0
IsQuiet due [] = Unit
IsQuiet due (fed t bytes ∷ rest) = (parse_osc9_4 bytes ≡ none) × IsQuiet due rest
IsQuiet due (clock t ∷ rest) = (t < due) × IsQuiet due rest

abbrev pub showing : ℕ → ProgressInfo → ProgressBar
showing due info = record { progress = some info; timer = some due }

feed-showing :
    (now : ℕ) (bytes : List ℕ) (info : ProgressInfo) (bar : ProgressBar)
    → parse_osc9_4 bytes ≡ some info
    → eqb info.state 0 ≡ false
    → feed now bytes bar ≡ showing (now + auto_hide_ms) info
unfolding feed show_info
feed-showing now bytes info bar read there = rw (read, feed) (rw (there, show_info) refl)

feed-none :
    (t : ℕ) (bytes : List ℕ) (bar : ProgressBar)
    → parse_osc9_4 bytes ≡ none
    → feed t bytes bar ≡ bar
unfolding feed
feed-none t bytes bar read = rw (read, feed) refl

tick-waits :
    (t due : ℕ) (info : ProgressInfo) → t < due → tick t (showing due info) ≡ showing due info
unfolding tick
tick-waits t due info early =
    let waits : leb due t ≡ false = ground (arith, early) in rw (waits, tick) refl

tick-fires :
    (t due : ℕ) (info : ProgressInfo) → due ≤ t → (tick t (showing due info)).progress ≡ none
unfolding tick
tick-fires t due info late =
    let fires : leb due t ≡ true = ground (arith, late) in rw (fires, tick) refl

watch-showing :
    (due : ℕ) (info : ProgressInfo) (seen : List Sight)
    → IsQuiet due seen
    → watch seen (showing due info) ≡ showing due info
unfolding watch see IsQuiet
watch-showing due info [] quiet = refl
watch-showing due info (fed t bytes ∷ rest) (nothing, quiet) =
    ap (watch rest) (feed-none t bytes (showing due info) nothing)
    ∙ watch-showing due info rest quiet
watch-showing due info (clock t ∷ rest) (early, quiet) =
    ap (watch rest) (tick-waits t due info early) ∙ watch-showing due info rest quiet

-- If bytes that hold a progress with a state other than 0 come, whatever was shown before, and
-- then, in any order, bytes that hold no progress and looks at the clock less than 15 seconds
-- after, the progress is still shown; a look at the clock 15 seconds after it or later then hides
-- it.
pub feed-shows_until :
    (now later : ℕ) (bytes : List ℕ) (info : ProgressInfo) (bar : ProgressBar) (seen : List Sight)
    → parse_osc9_4 bytes ≡ some info
    → eqb info.state 0 ≡ false
    → IsQuiet (now + auto_hide_ms) seen
    → now + auto_hide_ms ≤ later
    → ((watch seen (feed now bytes bar)).progress ≡ some info)
      × ((tick later (watch seen (feed now bytes bar))).progress ≡ none)
feed-shows_until now later bytes info bar seen read there quiet late =
    let stays : watch seen (feed now bytes bar) ≡ showing (now + auto_hide_ms) info =
      ap (watch seen) (feed-showing now bytes info bar read there)
      ∙ watch-showing (now + auto_hide_ms) info seen quiet in
    (
      ap (λ (b : ProgressBar). b.progress) stays,
      ap (λ (b : ProgressBar). (tick later b).progress) stays
          ∙ tick-fires later (now + auto_hide_ms) info late,
    )
