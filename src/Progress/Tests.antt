-- ===== src/Progress/Tests.antt =====
-- packages/web/src/hooks/useProgressBar.ts: a progress of 42 percent, fed after a second.
use remote_ttys.Base.{true, none, some, List, [], ◌∷◌, ◌≡◌, refl, arith}
use remote_ttys.Osc.{ProgressInfo, parse_osc9_4}
use remote_ttys.Osc.Parse.{Chunk, progress, render, parse_osc9_4-render}
use remote_ttys.Progress.{ProgressBar, feed, tick}
use remote_ttys.Progress.Hiding.{Sight, fed, clock, watch, IsQuiet, feed-shows_until}

abbrev stream : List Chunk
stream = progress 1 (0x34 ∷ 0x32 ∷ []) true ∷ []

abbrev forty_two : ProgressInfo
forty_two = record { state = 1; value = 42 }

abbrev hidden : ProgressBar
hidden = record { progress = none; timer = none }

abbrev seen : List Sight
seen = clock 9000 ∷ fed 9500 [] ∷ clock 15999 ∷ []

reads : parse_osc9_4 (render stream) ≡ some forty_two
reads = parse_osc9_4-render stream ((omega arith, (refl, (refl, tt)), omega arith), tt)

feed-shows_until_example :
    ((watch seen (feed 1000 (render stream) hidden)).progress ≡ some forty_two)
    × ((tick 16000 (watch seen (feed 1000 (render stream) hidden))).progress ≡ none)
unfolding IsQuiet parse_osc9_4 remote_ttys.Osc.scan
feed-shows_until_example =
    feed-shows_until 1000 16000 (render stream) forty_two hidden seen reads refl
      (omega arith, (refl, (omega arith, tt))) (omega arith)
