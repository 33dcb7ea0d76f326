-- ===== src/Pipeline/Drain.antt =====
-- How long the upload threads (servers.c) work on the queue of a server.
use mmdd_pro.Common.{ℕ, suc, ◌+◌, ◌≤◌, ◌≡◌, refl, List, [], ◌∷◌, some, arith, ℤ, get_elem?, length}
use mmdd_pro.Pipeline.State.{Copy, Server, World, Env}
use mmdd_pro.Pipeline.Rounds.{Action, upload_begins, upload_ends, step, run}
use mmdd_pro.Pipeline.Memory.{IsSound}
use mmdd_pro.Pipeline.Memory.Runs.{step-Sound}
use mmdd_pro.Pipeline.Serving.{rounds_for, Serving, then_at, Begun, begin_on-Begun, end_on-Serving}

module _ (i R : ℕ) where
  -- The rounds of one upload thread; `ret` is what the analyze function returns in a round, if the
  -- thread gets to call it.
  abbrev pub rounds : List (Env × Env × ℤ) → List Action
  rounds [] = []
  rounds ((env, later, ret) ∷ rs) = upload_begins env i ∷ upload_ends later i 0 ret ∷ rounds rs

  round-Serving :
      (m : ℕ) (env later : Env) (ret : ℤ) (w : World)
      → IsSound w
      → Serving i R (suc m) [] w
      → (u v : World) × (step (upload_begins env i) w ≡ some u)
        × (step (upload_ends later i 0 ret) u ≡ some v)
        × IsSound v
        × Serving i R m [] v
  unfolding step
  round-Serving m env later ret w sound s =
      let (u, begins, still) = step-Sound (upload_begins env i) w sound in
      let (v, ends, at_last) = step-Sound (upload_ends later i 0 ret) u still in
      let begun = then_at (Begun i R m) _ (begin_on-Begun i R m env w s) begins in
      (
        u,
        v,
        begins,
        ends,
        at_last,
        then_at (Serving i R m []) _ (end_on-Serving i R m later ret u begun) ends,
      )

  idle :
      (w : World)
      → Serving i R 0 [] w
      → (t : Server) × (get_elem? w.servers i ≡ some t) × (t.queue ≡ []) × (t.in_hand ≡ [])
  idle w s = (s.server, s.there, empty s.server.queue s.enough, s.held)
    where
      empty : (q : List Copy) → rounds_for (length q) R ≤ 0 + s.failures → q ≡ []
      empty [] h = refl
      empty (c ∷ q) h = absurd (omega (arith, h, s.few))

  -- A world in which the counter of every node is the number of its copies and the upload threads
  -- run; a server of it with no copy in hand, at most `R` attempts, and from 0 to `R` failures
  -- counted. One upload thread makes at least as many rounds as the server needs: `R + 1`
  -- for each copy in the queue, less the failures that are counted already. Then, whatever the
  -- library returns and whatever the times and the files are, no step uses a counter that has been freed, and at
  -- the end the queue is empty and no copy is in hand.
  pub run-rounds :
      (rs : List (Env × Env × ℤ)) (w : World)
      → IsSound w
      → Serving i R (length rs) [] w
      → (v : World) × (run (rounds rs) w ≡ some v)
        × IsSound v
        × ((t : Server) × (get_elem? v.servers i ≡ some t) × (t.queue ≡ []) × (t.in_hand ≡ []))
  unfolding run
  run-rounds [] w sound s = (w, refl, sound, idle w s)
  run-rounds ((env, later, ret) ∷ rs) w sound s =
      let (u, v, begins, ends, still, left) = round-Serving (length rs) env later ret w sound s in
      rw (begins, ends, run) (run-rounds rs v still left)
