-- ===== src/Pipeline/Memory.antt =====
-- The counter that a node shares with its copies (re_count_s and retain_count of
-- utils/encapsulate_queue.h): what all threads keep true of it, and the operations of
-- utils/encapsulate_queue.c on it.
pub mod Queues
pub mod Scheduler
pub mod Uploads
pub mod Runs
use mmdd_pro.Common.{
  ℕ, zero, suc, ◌+◌, ◌≤◌, ◌<◌, ◌≡◌, refl, sym, subst, ◌∙◌, inl, inr, Bool, true, false, ◌&&◌, ◌++◌,
  List, [], ◌∷◌, Option, none, some, arith, if◌then◌else◌, ◌==◌, ℤ, Text, All, Bool-cases, ==_iff,
}
use mmdd_pro.Pipeline.State.{Item, Copy, Server, World}
use mmdd_pro.Pipeline.Schedule.{set_queue, queue_node_free, queue_node_add}
use mmdd_pro.Pipeline.Counting.{
  is_ref, refs, all_refs, count_address, retained, count_address-append, retained-append,
  retained_of_absent, Released, release_lem,
}

abbrev pub Owned : ℕ → List Item → Type 0
Owned g q = All (λ x. x.monitor_id ≡ g) q

-- The copies of a node are those in the queues of the servers, those in the hands of their threads
-- and, between two lines of a thread, the `loose` ones. Its counter is their number.
pub record Sound (loose : List Copy) (servers : List Server) (queues : ℕ → List Item) (next : ℕ)
    : Type 0 where
  pub unique : (g a : ℕ) → count_address a (queues g) ≤ 1
  pub fresh : (g a : ℕ) → next ≤ a → count_address a (queues g) ≡ 0
  pub counted : (g a : ℕ) → refs g a loose + all_refs g a servers ≡ retained a (queues g)
  pub owned : (g : ℕ) → Owned g (queues g)

abbrev pub IsSound : World → Type 0
IsSound w = Sound [] w.servers w.queues w.next_address

-- What a new queue of group `g` has to satisfy.
pub record Fits (loose : List Copy) (servers : List Server) (g : ℕ) (q : List Item) (next : ℕ)
    : Type 0 where
  pub unique : (a : ℕ) → count_address a q ≤ 1
  pub fresh : (a : ℕ) → next ≤ a → count_address a q ≡ 0
  pub counted : (a : ℕ) → refs g a loose + all_refs g a servers ≡ retained a q
  pub owned : Owned g q

Sound-Fits :
    {c : List Copy} {ss : List Server} {queues : ℕ → List Item} {n : ℕ} (h : ℕ)
    → Sound c ss queues n
    → Fits c ss h (queues h) n
Sound-Fits h s = record {
  unique = s.unique h;
  fresh = s.fresh h;
  counted = s.counted h;
  owned = s.owned h;
}

-- A queue replaced by one that fits, where the others do not see the change.
pub set_queue-Sound :
    (c : List Copy) (ss : List Server) (queues : ℕ → List Item) (n g : ℕ) (q : List Item)
    → Fits c ss g q n
    → ((h : ℕ) → (g == h) ≡ false → Fits c ss h (queues h) n)
    → Sound c ss (set_queue g q queues) n
set_queue-Sound c ss queues n g q new old = record {
  unique = λ h. (the_queue h).unique;
  fresh = λ h. (the_queue h).fresh;
  counted = λ h. (the_queue h).counted;
  owned = λ h. (the_queue h).owned;
}
  where
    the_queue : (h : ℕ) → Fits c ss h (set_queue g q queues h) n
    the_queue h = elim (Bool-cases (g == h)) [
      | inl e ↦ rw (e, set_queue) (subst (λ k. Fits c ss k q n) ((==_iff g h).0 e) new)
      | inr e ↦ rw (e, set_queue) (old h e)
    ]

is_ref_own : (c : Copy) (a : ℕ) → is_ref c.monitor_id a c ≡ (if c.orig == a then 1 else 0)
is_ref_own c a = ground (arith)

is_ref_self : (c : Copy) → is_ref c.monitor_id c.orig c ≡ 1
is_ref_self c = ground (arith)

without_loose :
    {h : ℕ} {ss : List Server} {q : List Item} {n : ℕ} (c : Copy)
    → Fits (c ∷ []) ss h q n
    → (c.monitor_id == h) ≡ false
    → Fits [] ss h q n
unfolding refs
without_loose c f e = record {
  unique = f.unique;
  fresh = f.fresh;
  counted = λ a. ground (arith, f.counted a);
  owned = f.owned;
}

-- A copy that no queue and no hand holds can be freed, and its counter is there.
pub queue_node_free-Sound :
    (c : Copy) (w : World)
    → Sound (c ∷ []) w.servers w.queues w.next_address
    → (w' : World) × (queue_node_free c w ≡ some w') × IsSound w'
unfolding queue_node_free refs
queue_node_free-Sound c w s =
    let g = c.monitor_id in
    let n = s.counted g c.orig in
    let self = is_ref_self c in
    let (p, r, l) = release_lem c.orig (w.queues g) (s.unique g c.orig) (omega (arith, n, self)) in
    let new : Fits [] w.servers g p w.next_address = record {
      unique = λ a. omega (arith, l.counts a, s.unique g a);
      fresh = λ a h. omega (arith, l.counts a, s.fresh g a h);
      counted = λ a. omega (arith, l.retains a, s.counted g a, is_ref_own c a);
      owned = l.owners g (s.owned g);
    } in
    let old = λ (h : ℕ) (e : (g == h) ≡ false). without_loose c (Sound-Fits h s) e in
    (
      record w { queues = set_queue g p w.queues },
      rw (r, queue_node_free) refl,
      set_queue-Sound [] w.servers w.queues w.next_address g p new old,
    )
