-- ===== src/Pipeline/Memory/Scheduler.antt =====
-- A round of sche_handle (monitor.c) keeps the counters of the nodes equal to the numbers of their
-- copies.
use mmdd_pro.Common.{
  signed32, ◌||◌, ℕ, ◌≡◌, refl, sym, ap, subst, inl, inr, Bool, true, false, ◌++◌, List, [], ◌∷◌,
  arith, if◌then◌else◌, ◌==◌, pos, eqb_ℤ, ltb_ℤ, Text, Bool-cases, Option-cases, get_elem?,
}
use mmdd_pro.Pipeline.State.{Item, Server, MonitorGroup, World, Env}
use mmdd_pro.Pipeline.Flags.{k_path, do_upload_state_file_check}
use mmdd_pro.Pipeline.Finish.{do_upload_file_finish_all, do_upload_file_limit}
use mmdd_pro.Pipeline.Schedule.{set_queue, dispatch}
use mmdd_pro.Pipeline.Rounds.{hand_to_servers, process, sche_node, sche_pop, sche_round}
use mmdd_pro.Pipeline.Counting.{refs, count_address, retained}
use mmdd_pro.Pipeline.Dispatch.{Handed, dispatch-Handed, own}
use mmdd_pro.Pipeline.Memory.{IsSound, Fits, Sound-Fits, set_queue-Sound}
use mmdd_pro.Pipeline.Memory.Queues.{queued, dropped}

own_here : (x : Item) (a : ℕ) → own x.monitor_id a x ≡ (if x.address == a then x.re_count else 0)
own_here x a = ground arith

own_away : (x : Item) (h a : ℕ) → (x.monitor_id == h) ≡ false → own h a x ≡ 0
own_away x h a e = ground arith

-- The node of the group, with the copies handed out.
handed :
    {ss ts : List Server} {q : List Item} {n : ℕ} (x y : Item)
    → Handed ss x ts y
    → Fits [] ss x.monitor_id (x ∷ q) n
    → Fits [] ts x.monitor_id (y ∷ q) n
unfolding refs count_address retained
handed {q = q} x y d f =
    let o : y.monitor_id ≡ x.monitor_id = d.monitor_id in
    let here : (a : ℕ) → own x.monitor_id a y ≡ (if y.address == a then y.re_count else 0) =
      λ a. subst (λ m. own m a y ≡ (if y.address == a then y.re_count else 0)) o (own_here y a) in
    let same : (a : ℕ)
        → ◌≡◌ {A = ℕ} (if y.address == a then 1 else 0) (if x.address == a then 1 else 0) =
      λ a. ap {B = ℕ} (λ b. if b == a then 1 else 0) d.address in
    record {
      unique = λ a. omega (arith, f.unique a, same a);
      fresh = λ a h. omega (arith, f.fresh a h, same a);
      counted = λ a. omega (arith, f.counted a, d.counted x.monitor_id a, own_here x a, here a);
      owned = (o, f.owned.1);
    }

-- The groups that do not own the node.
elsewhere :
    {ss ts : List Server} {h : ℕ} {q : List Item} {n : ℕ} (x y : Item)
    → Handed ss x ts y
    → (x.monitor_id == h) ≡ false
    → Fits [] ss h q n
    → Fits [] ts h q n
unfolding refs
elsewhere {h = h} x y d e f =
    let e' : (y.monitor_id == h) ≡ false = subst (λ m. (m == h) ≡ false) (sym d.monitor_id) e in
    record {
      unique = f.unique;
      fresh = f.fresh;
      counted = λ a. omega (arith, f.counted a, d.counted h a, own_away x h a e, own_away y h a e');
      owned = f.owned;
    }

hand_to_servers-Sound :
    (env : Env) (group : MonitorGroup) (node : Item) (rest : List Item) (w : World)
    → w.queues node.monitor_id ≡ node ∷ rest
    → IsSound w
    → IsSound (hand_to_servers env node.monitor_id group node rest w)
unfolding hand_to_servers
hand_to_servers-Sound env group node rest w e s =
    let g = node.monitor_id in
    let n = w.next_address in
    let ss = w.servers in
    let d = dispatch env group.name w.files group.server_group_list ss node in
    let h = dispatch-Handed env group.name w.files group.server_group_list ss node in
    let mine : Fits [] ss g (node ∷ rest) n = subst (λ q. Fits [] ss g q n) e (Sound-Fits g s) in
    set_queue-Sound [] d.servers w.queues n g (rest ++ (d.node ∷ []))
      (queued d.node (handed node d.node h mine))
      (λ k away. elsewhere node d.node h away (Sound-Fits k s))

do_upload_file_limit-Sound : (w : World) → IsSound w → IsSound (do_upload_file_limit w)
unfolding do_upload_file_limit
do_upload_file_limit-Sound w s = elim (Bool-cases (eqb_ℤ w.max_upload_num (pos 0))) [
  | inl e ↦ rw (e, do_upload_file_limit) s
  | inr e ↦ elim (Bool-cases (ltb_ℤ w.max_upload_num (signed32 w.upload_count))) [
    | inl over ↦ rw (e, over, do_upload_file_limit) s
    | inr under ↦ rw (e, under, do_upload_file_limit) s
  ]
]

module _ (env : Env) (g : ℕ) (group : MonitorGroup) (node : Item) (rest : List Item) (w : World)
    (e : w.queues g ≡ node ∷ rest) (s : IsSound w) where
  mine : Fits [] w.servers g (node ∷ rest) w.next_address
  mine = subst (λ q. Fits [] w.servers g q w.next_address) e (Sound-Fits g s)

  given_out :
      (files : Text → Bool)
      → IsSound (hand_to_servers env g group node rest (record w { files = files }))
  given_out files =
      subst
        (λ h.
          w.queues h ≡ node ∷ rest
          → IsSound (hand_to_servers env h group node rest (record w { files = files })))
        mine.owned.0
        (λ at. hand_to_servers-Sound env group node rest (record w { files = files }) at s) e

  put_back : IsSound (record w { queues = set_queue g (rest ++ (node ∷ [])) w.queues })
  put_back =
      set_queue-Sound [] w.servers w.queues w.next_address g _ (queued node mine)
        (λ h away. Sound-Fits h s)

  taken_out :
      (node.re_count == 0) ≡ true → IsSound (record w { queues = set_queue g rest w.queues })
  taken_out z =
      set_queue-Sound [] w.servers w.queues w.next_address g rest (dropped node mine z)
        (λ h away. Sound-Fits h s)

  finished :
      (node.re_count == 0) ≡ true
      → IsSound (
          do_upload_file_finish_all env group node
            (record w { queues = set_queue g rest w.queues }))
  unfolding do_upload_file_finish_all
  finished z =
      do_upload_file_limit-Sound (record w { queues = set_queue g rest w.queues }) (taken_out z)

  process-Sound : (node.re_count == 0) ≡ true → IsSound (process env g group node rest w)
  unfolding process
  process-Sound z = elim (Bool-cases (w.files (k_path node.monitorfile))) [
    | inr no_k ↦ rw (no_k, process) (given_out _)
    | inl k ↦
        elim (Bool-cases (
          do_upload_state_file_check w.servers group.name node.monitorfile group.server_group_list
            w.files)) [
              | inl ok ↦ rw (k, ok, process) (finished z)
              | inr left ↦ rw (k, left, process) (given_out w.files)
            ]
  ]

  pub sche_node-Sound : IsSound (sche_node env g group node rest w)
  unfolding sche_node
  sche_node-Sound = elim (Bool-cases (node.re_count == 0)) [
    | inr busy ↦ rw (busy, sche_node) put_back
    | inl idle ↦ elim (Bool-cases (w.files node.src)) [
      | inr gone ↦ rw (idle, gone, sche_node) (taken_out idle)
      | inl there ↦ rw (idle, there, sche_node) (process-Sound idle)
    ]
  ]

either : (b : Bool) (v w : World) → IsSound v → IsSound w → IsSound (if b then v else w)
either true v w sv sw = sv
either false v w sv sw = sw

pub sche_round-Sound : (env : Env) (g : ℕ) (w : World) → IsSound w → IsSound (sche_round env g w)
unfolding sche_round sche_pop
sche_round-Sound env g w s = elim (Option-cases (get_elem? w.groups g)) [
  | inl e ↦ rw (e, sche_round) s
  | inr (group, e) ↦
      rw (e, sche_round)
        (either (env.past_test || w.monitor_run) (sche_pop env g group (w.queues g) w) w
          (pop group (w.queues g) refl) s)
]
  where
    pop :
        (group : MonitorGroup) (q : List Item) → w.queues g ≡ q → IsSound (sche_pop env g group q w)
    pop group [] e = s
    pop group (node ∷ rest) e = sche_node-Sound env g group node rest w e s
