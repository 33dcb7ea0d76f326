-- ===== src/Pipeline/Memory/Runs.antt =====
-- Runs of the threads of monitor.c and servers.c, in any order: the counters that the nodes share
-- with their copies are never used after they have been freed.
use mmdd_pro.Common.{
  ◌||◌, refl, inl, inr, Bool, true, false, List, [], ◌∷◌, Option, some, Option-cases, get_elem?,
  if◌then◌else◌,
}
use mmdd_pro.Pipeline.State.{World}
use mmdd_pro.Pipeline.Rounds.{
  begin_on, end_on, Action, found, schedule, upload_begins, upload_ends, step, run,
}
use mmdd_pro.Pipeline.Memory.{IsSound}
use mmdd_pro.Pipeline.Memory.Queues.{queue_node_add-Sound}
use mmdd_pro.Pipeline.Memory.Scheduler.{sche_round-Sound}
use mmdd_pro.Pipeline.Memory.Uploads.{GoesOn, upload_pop-Sound, upload_end-Sound}

either :
    (b : Bool) (r : Option World) (w : World)
    → GoesOn r
    → IsSound w
    → GoesOn (if b then r else some w)
either true r w g s = g
either false r w g s = (w, refl, s)

-- One step of any thread, from a world in which the counter of every node is the number of its
-- copies: it uses no counter that has been freed, and leaves such a world.
pub step-Sound : (a : Action) (w : World) → IsSound w → GoesOn (step a w)
unfolding step begin_on end_on
step-Sound (found g wd monitorfile src) w s =
    (_, refl, queue_node_add-Sound g wd monitorfile src w s)
step-Sound (schedule env g) w s = (_, refl, sche_round-Sound env g w s)
step-Sound (upload_begins env i) w s = elim (Option-cases (get_elem? w.servers i)) [
  | inl e ↦ rw (e, begin_on) (w, refl, s)
  | inr (t, e) ↦
      rw (e, begin_on)
        (either (env.past_test || w.upload_run) _ w (upload_pop-Sound env i t w e s) s)
]
step-Sound (upload_ends env i k ret) w s = elim (Option-cases (get_elem? w.servers i)) [
  | inl e ↦ rw (e, end_on) (w, refl, s)
  | inr (t, e) ↦ elim (Option-cases (get_elem? t.in_hand k)) [
    | inl none_there ↦ rw (e, none_there, end_on) (w, refl, s)
    | inr (c, there) ↦ rw (e, there, end_on) (upload_end-Sound env i k t c ret w e there s)
  ]
]

-- Any sequence of steps of the threads, from a world in which the counter of every node is the
-- number of its copies: no step uses a counter that has been freed, and in the world at the end
-- the counter of every node is again the number of its copies in queues and in hand.
pub run-Sound : (as' : List Action) (w : World) → IsSound w → GoesOn (run as' w)
unfolding run
run-Sound [] w s = (w, refl, s)
run-Sound (a ∷ as') w s = let (v, e, t) = step-Sound a w s in rw (e, run) (run-Sound as' v t)
