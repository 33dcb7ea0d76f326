-- ===== src/Pipeline/Counting.antt =====
-- Counting the copies of a node (queue_node_copy of utils/encapsulate_queue.c) and the nodes at an
-- address.
use mmdd_pro.Common.{
  ℕ, zero, suc, ◌+◌, ◌-◌, ◌≤◌, ◌<◌, ◌≡◌, refl, ◌&&◌, List, [], ◌∷◌, ◌++◌, some, arith,
  if◌then◌else◌, ◌==◌, get_elem?, set, All, inl, inr, Bool-cases,
}
use mmdd_pro.Pipeline.State.{Item, Copy, Server}
use mmdd_pro.Pipeline.Schedule.{release}
use mmdd_pro.Pipeline.Rounds.{remove_at}

-- 1 for a copy of the node at address `a` of group `g`.
abbrev pub is_ref : ℕ → ℕ → Copy → ℕ
is_ref g a c = if c.monitor_id == g && c.orig == a then 1 else 0

unfoldable pub refs : ℕ → ℕ → List Copy → ℕ
refs g a [] = 0
refs g a (c ∷ cs) = is_ref g a c + refs g a cs

abbrev pub server_refs : ℕ → ℕ → Server → ℕ
server_refs g a s = refs g a s.queue + refs g a s.in_hand

unfoldable pub all_refs : ℕ → ℕ → List Server → ℕ
all_refs g a [] = 0
all_refs g a (s ∷ ss) = server_refs g a s + all_refs g a ss

unfoldable pub count_address : ℕ → List Item → ℕ
count_address a [] = 0
count_address a (x ∷ q) = (if x.address == a then 1 else 0) + count_address a q

unfoldable pub retained : ℕ → List Item → ℕ
retained a [] = 0
retained a (x ∷ q) = (if x.address == a then x.re_count else 0) + retained a q

module _ (g a : ℕ) where
  pub refs-append : (xs ys : List Copy) → refs g a (xs ++ ys) ≡ refs g a xs + refs g a ys
  unfolding refs
  refs-append [] ys = omega arith
  refs-append (c ∷ cs) ys = omega (arith, refs-append cs ys)

  pub refs-remove_at :
      (cs : List Copy) (k : ℕ) (c : Copy)
      → get_elem? cs k ≡ some c
      → refs g a cs ≡ is_ref g a c + refs g a (remove_at cs k)
  unfolding refs remove_at
  refs-remove_at [] k c e = absurd (ground arith)
  refs-remove_at (x ∷ cs) zero c e = ground arith
  refs-remove_at (x ∷ cs) (suc k) c e = omega (arith, refs-remove_at cs k c e)

  pub all_refs-set :
      (ss : List Server) (i : ℕ) (s t : Server)
      → get_elem? ss i ≡ some s
      → all_refs g a (set ss i t) + server_refs g a s ≡ all_refs g a ss + server_refs g a t
  unfolding all_refs
  all_refs-set [] i s t e = absurd (ground arith)
  all_refs-set (x ∷ ss) zero s t e = ground arith
  all_refs-set (x ∷ ss) (suc i) s t e = omega (arith, all_refs-set ss i s t e)

pub count_address-append :
    (a : ℕ) (p q : List Item) → count_address a (p ++ q) ≡ count_address a p + count_address a q
unfolding count_address
count_address-append a [] q = omega arith
count_address-append a (x ∷ p) q = omega (arith, count_address-append a p q)

pub retained-append : (a : ℕ) (p q : List Item) → retained a (p ++ q) ≡ retained a p + retained a q
unfolding retained
retained-append a [] q = omega arith
retained-append a (x ∷ p) q = omega (arith, retained-append a p q)

pub retained_of_absent : (a : ℕ) (q : List Item) → count_address a q ≡ 0 → retained a q ≡ 0
unfolding count_address retained
retained_of_absent a [] h = refl
retained_of_absent a (x ∷ q) h = ground (arith, retained_of_absent a q)

-- A queue after one counter in it went down.
pub record Released (a : ℕ) (q p : List Item) : Type 0 where
  pub counts : (b : ℕ) → count_address b p ≡ count_address b q
  pub retains : (b : ℕ) → retained b p + (if a == b then 1 else 0) ≡ retained b q
  pub owners : (g : ℕ) → All (λ x. x.monitor_id ≡ g) q → All (λ x. x.monitor_id ≡ g) p

-- A node with a positive counter is found, and that counter goes down.
pub release_lem :
    (a : ℕ) (q : List Item)
    → count_address a q ≤ 1
    → 0 < retained a q
    → (p : List Item) × (release a q ≡ some p) × Released a q p
unfolding release count_address retained
release_lem a [] u h = absurd (omega arith)
release_lem a (x ∷ q) u h = elim (Bool-cases (x.address == a)) [
  | inl e ↦ (
    record x { re_count = x.re_count - 1 } ∷ q,
    ground arith,
    record {
      counts = λ b. refl;
      retains = λ b. ground (arith, retained_of_absent a q);
      owners = λ g o. o;
    },
  )
  | inr e ↦
      let (p, r, l) = release_lem a q (ground arith) (ground arith) in
      (
        x ∷ p,
        ground arith,
        record {
          counts = λ b. omega (arith, l.counts b);
          retains = λ b. omega (arith, l.retains b);
          owners = λ g o. (o.0, l.owners g o.1);
        },
      )
]
