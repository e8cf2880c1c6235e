-- ===== src/Osc/Tests.antt =====
-- packages/web/src/lib/parseOsc9_4.ts: a stream and concrete instances of the parser's theorems.
use remote_ttys.Base.{true, false, none, List, [], ◌∷◌, ◌≡◌, refl, arith}
use remote_ttys.Osc.{parse_osc9_4}
use remote_ttys.Osc.Parse.{
  Chunk, text, progress, render, last_progress, InRange, parse_osc9_4-InRange, parse_osc9_4-render,
}

-- "ok", 42 percent, "!", then a value of 250.
abbrev stream : List Chunk
stream =
    text (0x6f ∷ 0x6b ∷ [])
    ∷ progress 1 (0x34 ∷ 0x32 ∷ []) true
    ∷ text (0x21 ∷ [])
    ∷ progress 2 (0x32 ∷ 0x35 ∷ 0x30 ∷ []) false
    ∷ []

parse_osc9_4-render_example : parse_osc9_4 (render stream) ≡ last_progress stream none
parse_osc9_4-render_example = parse_osc9_4-render stream (
  (ground arith, (ground arith, tt)),
  (
    (omega arith, (refl, (refl, tt)), omega arith),
    ((ground arith, tt), ((omega arith, (refl, (refl, (refl, tt))), omega arith), tt)),
  ),
)

parse_osc9_4-InRange_example : InRange (parse_osc9_4 (render stream))
parse_osc9_4-InRange_example = parse_osc9_4-InRange (render stream)
