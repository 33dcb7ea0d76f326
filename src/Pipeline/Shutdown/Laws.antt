-- ===== src/Pipeline/Shutdown/Laws.antt =====
-- At the end of the program no node is freed while a copy of it is left (servers.c, monitor.c).
use mmdd_pro.Common.{
  ℕ, zero, suc, ◌+◌, ◌≤◌, ◌<◌, ◌≡◌, refl, sym, ap, subst, ◌∙◌, inl, inr, List, [], ◌∷◌, some, arith,
  length, get_elem?, get_elem?-lt, ◌==◌, Bool-cases,
}
use mmdd_pro.Pipeline.State.{Server, World}
use mmdd_pro.Pipeline.Rounds.{Action, run}
use mmdd_pro.Pipeline.Counting.{refs, all_refs, retained}
use mmdd_pro.Pipeline.Memory.{IsSound}
use mmdd_pro.Pipeline.Memory.Runs.{run-Sound}
use mmdd_pro.Pipeline.Shutdown.{
  then_do, free_server, free_servers, servers_exit, free_groups, monitor_group_exit, newiup_exit,
}
use mmdd_pro.Pipeline.Shutdown.Copies.{IsJoined, IsFreed, some_inj, free_copies-IsFreed}

elem_there :
    {n : ℕ} (ss : List Server) (i : ℕ)
    → length ss ≡ n
    → i < n
    → (s : Server) × (get_elem? ss i ≡ some s)
elem_there [] i e lt = absurd (omega (arith, e, lt))
elem_there (s ∷ ss) zero e lt = (s, refl)
elem_there {n} (s ∷ ss) (suc i) e lt = elem_there {n = length ss} ss i refl (omega (arith, e, lt))

free_servers-IsFreed :
    (n m i left : ℕ) (w : World)
    → i + left ≡ n
    → IsFreed i n m w
    → (v : World) × (free_servers i left w ≡ some v) × IsFreed n n m v
unfolding free_servers free_server
free_servers-IsFreed n m i zero w e f = (w, refl, subst (λ k. IsFreed k n m w) (omega (arith, e)) f)
free_servers-IsFreed n m i (suc left) w e f =
    let (s, there) = elem_there w.servers i f.size (omega (arith, e)) in
    let (u, freed, g) = free_copies-IsFreed i n m s s.queue w f there in
    let (v, more, h) = free_servers-IsFreed n m (suc i) left u (omega (arith, e)) g in
    (v, rw (there, free_server) (ap (λ r. then_do r (free_servers (suc i) left)) freed ∙ more), h)

none_left :
    (g a : ℕ) (ss : List Server)
    → ((j : ℕ) (s : Server) → get_elem? ss j ≡ some s → (s.queue ≡ []) × (s.in_hand ≡ []))
    → all_refs g a ss ≡ 0
unfolding all_refs refs
none_left g a [] h = refl
none_left g a (s ∷ ss) h = omega (
  arith,
  ap (refs g a) (h 0 s refl).0,
  ap (refs g a) (h 0 s refl).1,
  none_left g a ss (λ j. h (suc j)),
)

-- Every node that is still in a queue has no copies.
abbrev pub NoneRetained : World → Type 0
NoneRetained w = (g a : ℕ) → retained a (w.queues g) ≡ 0

-- From a world in which the counter of every node is the number of its copies, and with no copy in
-- the hands of a thread, servers_exit frees all copies without using a counter that has been freed;
-- at the end all counters are 0, so that monitor_group_exit behind it frees no node that a copy
-- still points to.
pub servers_exit_lem :
    (w : World)
    → IsSound w
    → IsJoined w
    → (v : World) × (servers_exit w ≡ some v)
      × NoneRetained v
      × (v.servers ≡ [])
      × (length v.groups ≡ length w.groups)
unfolding servers_exit refs
servers_exit_lem w sound joined =
    let n = length w.servers in
    let m = length w.groups in
    let start : IsFreed 0 n m w = record {
      sound = sound;
      joined = joined;
      empty = λ j s at lt. absurd (omega (arith, lt));
      size = refl;
      groups = refl;
    } in
    let (v, freed, f) = free_servers-IsFreed n m 0 n w (omega arith) start in
    (
      record v { servers = [] },
      ap (λ r. then_do r (λ u. some (record u { servers = [] }))) freed,
      λ g a. omega (
        arith,
        f.sound.counted g a,
        none_left g a v.servers (λ j s at. (
          f.empty j s at (omega (arith, f.size, get_elem?-lt v.servers j s at)),
          f.joined j s at,
        )),
      ),
      refl,
      f.groups,
    )

free_groups-below :
    (i left g : ℕ) (w : World) → g < i → (free_groups i left w).queues g ≡ w.queues g
unfolding free_groups
free_groups-below i zero g w lt = refl
free_groups-below i (suc left) g w lt =
    free_groups-below (suc i) left g _ (omega (arith, lt)) ∙ ground (arith, lt)

pub free_groups-empty :
    (i left g : ℕ) (w : World) → i ≤ g → g < i + left → (free_groups i left w).queues g ≡ []
unfolding free_groups
free_groups-empty i zero g w le lt = absurd (omega (arith, le, lt))
free_groups-empty i (suc left) g w le lt = elim (Bool-cases (i == g)) [
  | inl same ↦ free_groups-below (suc i) left g _ (ground (arith, same)) ∙ ground (arith, same)
  | inr other ↦ free_groups-empty (suc i) left g _ (ground (arith, other, le)) (omega (arith, lt))
]

-- Any run of the threads from a world in which the counter of every node is the number of its
-- copies: where no thread holds a copy when it has ended, newiup_exit uses no counter that has been
-- freed. When it comes to the nodes no counter is above 0, and at the end the queue of every monitor
-- group is empty.
pub newiup_exit-run :
    (as' : List Action) (w : World) (g : ℕ) {v : World}
    → IsSound w
    → run as' w ≡ some v
    → IsJoined v
    → g < length v.groups
    → (u x : World) × (servers_exit v ≡ some u)
      × NoneRetained u
      × (newiup_exit v ≡ some x)
      × (x.queues g ≡ [])
unfolding newiup_exit monitor_group_exit
newiup_exit-run as' w g {v} sound ran joined lt =
    let (v', e, sound') = run-Sound as' w sound in
    let same : v' ≡ v = some_inj (sym e ∙ ran) in
    let (u, exits, none_held, gone, size) = servers_exit_lem v (subst IsSound same sound') joined in
    (
      u,
      monitor_group_exit u,
      exits,
      none_held,
      ap (λ r. then_do r (λ y. some (monitor_group_exit y))) exits,
      free_groups-empty 0 (length u.groups) g u (omega arith) (omega (arith, size, lt)),
    )
