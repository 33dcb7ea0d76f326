-- ===== src/Pipeline/Signal/Laws.antt =====
-- The steps of the threads (monitor.c, servers.c) behind signal_func (main.c).
use mmdd_pro.Common.{
  ℕ, ◌≡◌, refl, sym, subst, All, ◌||◌, Bool, true, false, List, [], ◌∷◌, Option, none, some, arith,
  if◌then◌else◌, get_elem?,
}
use mmdd_pro.Pipeline.State.{Server, MonitorGroup, World, Env}
use mmdd_pro.Pipeline.Schedule.{queue_node_add}
use mmdd_pro.Pipeline.Rounds.{
  Action, found, schedule, upload_begins, upload_ends, begin_on, upload_pop, sche_pop, sche_round,
  step, run,
}
use mmdd_pro.Pipeline.Memory.{IsSound}
use mmdd_pro.Pipeline.Memory.Runs.{run-Sound}
use mmdd_pro.Pipeline.Serving.{Then, then_at}
use mmdd_pro.Pipeline.Signal.{signal_func, Stopped}
use mmdd_pro.Pipeline.Signal.Off.{Off, run-Off, signal_func-Off}
use mmdd_pro.Pipeline.Signal.Uploads.{end_on-Stopped}

not_run :
    (P : World → Type 0) (b : Bool) (r : Option World) (v : World)
    → b ≡ false
    → P v
    → Then P (if b then r else some v)
not_run P true r v e h = cc
not_run P false r v e h = h

-- A round whose thread tests its run signal after the signal has come.
abbrev pub IsTested : Action → Type 0
IsTested (found g wd monitorfile src) = Unit
IsTested (schedule env g) = env.past_test ≡ false
IsTested (upload_begins env i) = env.past_test ≡ false
IsTested (upload_ends env i k ret) = Unit

module _ (w : World) where
  begin_on-Stopped :
      (env : Env) (i : ℕ) (v : World) (o : Option Server)
      → env.past_test ≡ false
      → Stopped w v
      → Then (Stopped w) (begin_on env i v o)
  unfolding begin_on
  begin_on-Stopped env i v none tested st = st
  begin_on-Stopped env i v (some s) tested st =
      not_run (Stopped w) (env.past_test || v.upload_run) (upload_pop env i s s.queue v) v
        (ground (arith, tested, st.upload_run)) st

  sche_round-stopped :
      (env : Env) (g : ℕ) (v : World)
      → (env.past_test || v.monitor_run) ≡ false
      → sche_round env g v ≡ v
  unfolding sche_round
  sche_round-stopped env g v off = go (get_elem? v.groups g)
    where
      go :
          (o : Option MonitorGroup)
          → (elim o as (λ _. World) [
            | none ↦ v
            | some group ↦
                if env.past_test || v.monitor_run then sche_pop env g group (v.queues g) v else v
          ])
            ≡ v
      go none = refl
      go (some group) = rw (off) refl

  step-Stopped : (a : Action) (v : World) → IsTested a → Stopped w v → Then (Stopped w) (step a v)
  unfolding step queue_node_add
  step-Stopped (found g wd monitorfile src) v tested st = record {
    monitor_run = st.monitor_run;
    upload_run = st.upload_run;
    groups = st.groups;
    files = st.files;
    hands = st.hands;
  }
  step-Stopped (schedule env g) v tested st =
      subst (Stopped w) (sym (sche_round-stopped env g v (ground (arith, tested, st.monitor_run))))
        st
  step-Stopped (upload_begins env i) v tested st =
      begin_on-Stopped env i v (get_elem? v.servers i) tested st
  step-Stopped (upload_ends env i k ret) v tested st =
      end_on-Stopped w env i k ret v (get_elem? v.servers i) refl st

  run-Stopped :
      (as' : List Action) (v : World)
      → All IsTested as'
      → Stopped w v
      → Then (Stopped w) (run as' v)
  unfolding run
  run-Stopped [] v tested st = st
  run-Stopped (a ∷ as') v (now, later) st =
      go (λ u. run-Stopped as' u later) (step a v) (step-Stopped a v now st)
    where
      go :
          ((u : World) → Stopped w u → Then (Stopped w) (run as' u))
          → (r : Option World) → Then (Stopped w) r
          → Then (Stopped w) (elim r as (λ _. Option World) [ none ↦ none | some u ↦ run as' u ])
      go k none h = tt
      go k (some u) h = k u h

self-Stopped : (w : World) → Off w → Stopped w w
self-Stopped w off = record {
  monitor_run = off.0;
  upload_run = off.1;
  groups = refl;
  files = λ p. ground arith;
  hands = λ i. omega arith;
}

signal_func-Sound : (w : World) → IsSound w → IsSound (signal_func w)
unfolding signal_func
signal_func-Sound w sound = sound

-- A world in which the counter of every node is the number of its copies. signal_func is called, and
-- the threads that had passed the test of their run signals before end their rounds, whatever
-- steps that takes (`over`), and in whatever order. From there on, where every further round tests its
-- signal first: none of the steps before or after uses a counter that has been freed, both signals
-- still tell the threads to stop, the monitor groups are the same, every file that is there was
-- there when the rounds were over, and no server's threads hold more copies than then.
pub run-signal_func :
    (over as' : List Action) (w : World)
    → IsSound w
    → All IsTested as'
    → (u : World) × (run over (signal_func w) ≡ some u)
      × (v : World) × (run as' u ≡ some v)
      × Stopped u v
run-signal_func over as' w sound tested =
    let (u, ends, still) = run-Sound over (signal_func w) (signal_func-Sound w sound) in
    let (v, runs, last) = run-Sound as' u still in
    let off =
      then_at Off (run over (signal_func w)) (run-Off over (signal_func w) (signal_func-Off w))
        ends in
    (
      u,
      ends,
      v,
      runs,
      then_at (Stopped u) (run as' u) (run-Stopped u as' u tested (self-Stopped u off)) runs,
    )
