-- ===== src/Progress.antt =====
-- packages/web/src/hooks/useProgressBar.ts: the progress that is shown, and the timer that hides it.
-- Times are in milliseconds; a timer that was cleared does not fire.
pub mod Hiding
pub mod Tests
use remote_ttys.Base.{ℕ, ◌+◌, Option, none, some, List, eqb, leb, if◌then◌else◌}
use remote_ttys.Osc.{ProgressInfo, parse_osc9_4}

abbrev pub auto_hide_ms : ℕ
auto_hide_ms = 15000

-- `timer` is when the timer fires.
pub record ProgressBar : Type 0 where
  pub progress : Option ProgressInfo
  pub timer : Option ℕ

unfoldable pub show_info : ℕ → ProgressInfo → ProgressBar
show_info now info =
    if eqb info.state 0
    then record { progress = none; timer = none }
    else record { progress = some info; timer = some (now + auto_hide_ms) }

unfoldable pub feed : ℕ → List ℕ → ProgressBar → ProgressBar
feed now bytes bar = elim (parse_osc9_4 bytes) [ none ↦ bar | some info ↦ show_info now info ]

-- The time is now `now`: a timer that is due fires.
unfoldable pub tick : ℕ → ProgressBar → ProgressBar
tick now bar = elim bar.timer [
  | none ↦ bar
  | some due ↦ if leb due now then record { progress = none; timer = none } else bar
]
