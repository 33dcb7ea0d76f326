-- ===== src/Pipeline/Shutdown/Copies.antt =====
-- The loop of servers_exit over the queue of one server (servers.c).
use mmdd_pro.Common.{
  ==_iff, ℕ, suc, ◌<◌, ◌≡◌, refl, sym, ap, subst, ◌∙◌, inl, inr, List, [], ◌∷◌, Option, none, some,
  arith, length, get_elem?, set, get_elem?-set, length-set, ◌==◌, Bool-cases,
}
use mmdd_pro.Pipeline.State.{Item, Copy, Server, World}
use mmdd_pro.Pipeline.Schedule.{release, set_queue, queue_node_free}
use mmdd_pro.Pipeline.Rounds.{set_server}
use mmdd_pro.Pipeline.Counting.{refs}
use mmdd_pro.Pipeline.Memory.{Sound, IsSound, queue_node_free-Sound}
use mmdd_pro.Pipeline.Memory.Queues.{set_server-Sound}
use mmdd_pro.Pipeline.Shutdown.{then_do, free_copies}

-- The threads of the servers have ended: none of them has a copy in hand.
abbrev pub IsJoined : World → Type 0
IsJoined w = (j : ℕ) (s : Server) → get_elem? w.servers j ≡ some s → s.in_hand ≡ []

-- No thread holds a copy, and the queues of the first `i` of `n` servers are empty.
pub record IsFreed (i n m : ℕ) (w : World) : Type 0 where
  pub sound : IsSound w
  pub joined : IsJoined w
  pub empty : (j : ℕ) (s : Server) → get_elem? w.servers j ≡ some s → j < i → s.queue ≡ []
  pub size : length w.servers ≡ n
  pub groups : length w.groups ≡ m

-- What an operation gives, or the world before it.
abbrev or_else : World → Option World → World
or_else v none = v
or_else v (some w) = w

queue_node_free-kept :
    (c : Copy) (v : World)
    → ((or_else v (queue_node_free c v)).servers ≡ v.servers)
      × (length (or_else v (queue_node_free c v)).groups ≡ length v.groups)
unfolding queue_node_free
queue_node_free-kept c v = go (release c.orig (v.queues c.monitor_id))
  where
    go :
        (r : Option (List Item))
        → ((or_else v (elim r as (λ _. Option World) [
          | none ↦ none
          | some q ↦ some (record v { queues = set_queue c.monitor_id q v.queues })
        ])).servers
            ≡ v.servers)
          × (length
                (or_else v (elim r as (λ _. Option World) [
                  | none ↦ none
                  | some q ↦ some (record v { queues = set_queue c.monitor_id q v.queues })
                ])).groups
              ≡ length v.groups)
    go none = (refl, refl)
    go (some q) = (refl, refl)

queue_node_free-servers :
    (c : Copy) (v w : World) → queue_node_free c v ≡ some w → w.servers ≡ v.servers
queue_node_free-servers c v w e =
    sym (ap (λ r. (or_else v r).servers) e) ∙ (queue_node_free-kept c v).0

queue_node_free-groups :
    (c : Copy) (v w : World) → queue_node_free c v ≡ some w → length w.groups ≡ length v.groups
queue_node_free-groups c v w e =
    sym (ap (λ r. length (or_else v r).groups) e) ∙ (queue_node_free-kept c v).1

-- What holds of a list's members, and of a new one, holds of the list with the new one in it.
get_elem?-set_each {ℓ} :
    {A : Type ℓ} (P : ℕ → A → Type 0) (xs : List A) (i : ℕ) (a v : A)
    → get_elem? xs i ≡ some a
    → P i v
    → ((j : ℕ) (u : A) → get_elem? xs j ≡ some u → P j u)
    → (j : ℕ) (u : A) → get_elem? (set xs i v) j ≡ some u
    → P j u
get_elem?-set_each P xs i a v e new old j u at =
    let read = get_elem?-set xs i j a v e in
    elim (Bool-cases (i == j)) [
      | inl same ↦
          let is_new : some v ≡ some u = ground (arith, read, at, same) in
          let is_v : v ≡ u = cc is_new in
          subst (λ k. P k u) ((==_iff i j).0 same) (subst (P i) is_v new)
      | inr other ↦ old j u (ground (arith, read, at, other))
    ]

pub some_inj {ℓ} : {A : Type ℓ} {x y : A} → some x ≡ some y → x ≡ y
some_inj e = cc e

module _ (i n m : ℕ) (s : Server) where
  all_empty :
      (w : World)
      → IsFreed i n m w
      → get_elem? w.servers i ≡ some (record s { queue = [] })
      → IsFreed (suc i) n m w
  all_empty w f there = record {
    sound = f.sound;
    joined = f.joined;
    empty = λ j t at lt. elim (Bool-cases (i == j)) [
      | inl same ↦
          ap (λ u. u.queue)
            (sym (some_inj (sym there ∙ ap (get_elem? w.servers) ((==_iff i j).0 same) ∙ at)))
      | inr other ↦ f.empty j t at (ground (arith, other, lt))
    ];
    size = f.size;
    groups = f.groups;
  }

  one_less :
      (c : Copy) (rest : List Copy) (w : World)
      → IsFreed i n m w
      → get_elem? w.servers i ≡ some (record s { queue = c ∷ rest })
      → (v : World) × (queue_node_free c (set_server i (record s { queue = rest }) w) ≡ some v)
        × IsFreed i n m v
        × (get_elem? v.servers i ≡ some (record s { queue = rest }))
  unfolding set_server refs
  one_less c rest w f there =
      let t = record s { queue = rest } in
      let w1 = set_server i t w in
      let old = record s { queue = c ∷ rest } in
      let lower : Sound (c ∷ []) (set w.servers i t) w.queues w.next_address =
        set_server-Sound w.servers i old t there (λ g a. omega arith) f.sound in
      let (v, e, sound) = queue_node_free-Sound c w1 lower in
      let same : v.servers ≡ set w.servers i t = queue_node_free-servers c w1 v e in
      (
        v,
        e,
        record {
          sound = sound;
          joined =
              subst (λ ss. (j : ℕ) (u : Server) → get_elem? ss j ≡ some u → u.in_hand ≡ [])
                (sym same)
                (get_elem?-set_each (λ j u. u.in_hand ≡ []) w.servers i old t there
                  (f.joined i old there) f.joined);
          empty =
              subst (λ ss. (j : ℕ) (u : Server) → get_elem? ss j ≡ some u → j < i → u.queue ≡ [])
                (sym same)
                (get_elem?-set_each (λ j u. j < i → u.queue ≡ []) w.servers i old t there
                  (λ lt. absurd (omega (arith, lt))) f.empty);
          size = ap length same ∙ length-set w.servers i t ∙ f.size;
          groups = queue_node_free-groups c w1 v e ∙ f.groups;
        },
        ap (λ ss. get_elem? ss i) same ∙ ground (arith, get_elem?-set w.servers i i old t there),
      )

  -- In the world, server `i` is `s` with the queue `q`.
  pub free_copies-IsFreed :
      (q : List Copy) (w : World)
      → IsFreed i n m w
      → get_elem? w.servers i ≡ some (record s { queue = q })
      → (v : World) × (free_copies i s q w ≡ some v) × IsFreed (suc i) n m v
  unfolding free_copies
  free_copies-IsFreed [] w f there = (w, refl, all_empty w f there)
  free_copies-IsFreed (c ∷ rest) w f there =
      let (u, e, g, here) = one_less c rest w f there in
      let (v, more, h) = free_copies-IsFreed rest u g here in
      (v, ap (λ r. then_do r (free_copies i s rest)) e ∙ more, h)
