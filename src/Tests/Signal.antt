-- ===== src/Tests/Signal.antt =====
-- The threads behind signal_func (main.c), with a copy that waits for a server.
use mmdd_pro.Common.{refl, true, ◌≡◌, List, [], ◌∷◌, some, codes, pos}
use mmdd_pro.Pipeline.State.{World}
use mmdd_pro.Pipeline.Rounds.{Action, found, schedule, upload_begins, upload_ends, run}
use mmdd_pro.Pipeline.Signal.{signal_func, Stopped}
use mmdd_pro.Pipeline.Signal.Laws.{run-signal_func}
use mmdd_pro.Tests.Pipeline.{env}
use mmdd_pro.Tests.Drain.{busy, busy-IsSound}

abbrev late_actions : List Action
late_actions =
    found 0 (pos 1) (codes "/in/g") (codes "/in/g")
    ∷ schedule env 0
    ∷ upload_begins env 0
    ∷ upload_ends env 0 0 (pos 0)
    ∷ []

-- The round of the scheduler that was past its test.
abbrev over : List Action
over = schedule (record env { past_test = true }) 0 ∷ []

run-signal_func_example :
    (u : World) × (run over (signal_func busy) ≡ some u)
    × (v : World) × (run late_actions u ≡ some v)
    × Stopped u v
run-signal_func_example =
    run-signal_func over late_actions busy busy-IsSound (tt, (refl, (refl, (tt, tt))))
