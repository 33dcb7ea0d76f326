-- ===== src/Tests/Ends.antt =====
-- newiup_exit (main.c) of a program that holds one node and one copy of it.
use mmdd_pro.Common.{zero, suc, ◌≡◌, refl, arith, [], some, sym}
use mmdd_pro.Pipeline.State.{Server, World}
use mmdd_pro.Pipeline.Rounds.{run}
use mmdd_pro.Pipeline.Shutdown.{servers_exit, newiup_exit}
use mmdd_pro.Pipeline.Shutdown.Copies.{IsJoined}
use mmdd_pro.Pipeline.Shutdown.Laws.{NoneRetained, newiup_exit-run}
use mmdd_pro.Tests.Drain.{busy, busy-IsSound}

in_hand-some : (s t : Server) → some s ≡ some t → s.in_hand ≡ t.in_hand
in_hand-some s t e = cc

busy-IsJoined : IsJoined busy
busy-IsJoined zero s e = sym (in_hand-some _ s e)
busy-IsJoined (suc zero) s e = sym (in_hand-some _ s e)
busy-IsJoined (suc (suc j)) s e = cc e

busy-run : run [] busy ≡ some busy
unfolding run
busy-run = refl

newiup_exit-run_example :
    (u x : World) × (servers_exit busy ≡ some u)
    × NoneRetained u
    × (newiup_exit busy ≡ some x)
    × (x.queues 0 ≡ [])
newiup_exit-run_example =
    newiup_exit-run [] busy 0 busy-IsSound busy-run busy-IsJoined (omega arith)
