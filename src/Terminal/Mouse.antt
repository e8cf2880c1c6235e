-- ===== src/Terminal/Mouse.antt =====
-- packages/web/src/components/TerminalView.tsx: mouse events as SGR sequences. The cell under the mouse
-- is given by the two quotients of `cellCoords`, floored; the terminal's modes are arguments.
use remote_ttys.Base.{
  ℕ, ◌+◌, ◌/◌, ◌%◌, String, Bool, not, ◌&&◌, ◌||◌, Option, none, some, eqb, if◌then◌else◌,
}
use remote_ttys.Base.Ints.{ℤ, pos, pos_part, neg_part, sub_ℕ, max_ℤ}
use remote_ttys.Base.Texts.{◌<>◌, show_ℕ, show_ℤ}

pub record MouseEvent : Type 0 where
  pub button : ℕ
  pub buttons : ℕ
  pub shift : Bool
  pub meta : Bool
  pub ctrl : Bool
  pub column : ℤ
  pub row : ℤ

-- `term.hasMouseTracking()`, and the modes 1003 and 1002.
pub record MouseModes : Type 0 where
  pub tracking : Bool
  pub any_event : Bool
  pub button_event : Bool

-- `Math.max(1, n + 1)`
unfoldable pub cell_coord : ℤ → ℤ
cell_coord n = max_ℤ (pos 1) (sub_ℕ (pos_part n + 1) (neg_part n))

-- The three bits are distinct, so their union is their sum.
unfoldable pub sgr_modifiers : MouseEvent → ℕ
sgr_modifiers e =
    (if e.shift then 4 else 0) + (if e.meta then 8 else 0) + (if e.ctrl then 16 else 0)

abbrev pub escape : String
escape = "\u{1b}"

-- `\x1b[<${btn};${x};${y}` and the last letter.
unfoldable pub sgr_text : ℕ → MouseEvent → String → String
sgr_text btn e last =
    escape
    <> "[<"
    <> show_ℕ btn
    <> ";"
    <> show_ℤ (cell_coord e.column)
    <> ";"
    <> show_ℤ (cell_coord e.row)
    <> last

-- `none` where the event is not handled.
unfoldable pub sgr_button : MouseModes → MouseEvent → (release : Bool) → Option String
sgr_button m e release =
    if not m.tracking
    then none
    else if eqb e.button 2 || (e.ctrl || e.meta)
    then none
    else some (sgr_text (e.button + sgr_modifiers e) e (if release then "m" else "M"))

unfoldable pub sgr_wheel : MouseModes → MouseEvent → (down : Bool) → Option String
sgr_wheel m e down =
    if not m.tracking then none else some (sgr_text (if down then 65 else 64) e "M")

-- The button held: left, middle, right, or none.
unfoldable pub held_button : ℕ → ℕ
held_button buttons =
    if eqb (buttons % 2) 1
    then 0
    else if eqb (buttons / 4 % 2) 1
    then 1
    else if eqb (buttons / 2 % 2) 1
    then 2
    else 3

-- `throttled` while the timer of the last movement runs.
unfoldable pub sgr_move : MouseModes → (throttled : Bool) → MouseEvent → Option String
sgr_move m throttled e =
    if not m.tracking || throttled
    then none
    else if not m.any_event && not m.button_event
    then none
    else if m.button_event && (not m.any_event && eqb e.buttons 0)
    then none
    else some (sgr_text (32 + held_button e.buttons + sgr_modifiers e) e "M")
