-- ===== src/Pipeline/Memory/Queues.antt =====
-- A node that joins, leaves or goes round its queue (utils/encapsulate_queue.c), and a server replaced.
use mmdd_pro.Common.{
  ℕ, ◌+◌, ◌≡◌, refl, true, ◌++◌, List, [], ◌∷◌, some, arith, ◌==◌, ℤ, Text, get_elem?, set,
}
use mmdd_pro.Pipeline.State.{Item, Copy, Server, World}
use mmdd_pro.Pipeline.Schedule.{queue_node_add}
use mmdd_pro.Pipeline.Counting.{
  refs, server_refs, count_address, retained, all_refs-set, count_address-append, retained-append,
}
use mmdd_pro.Pipeline.Memory.{Sound, IsSound, Fits, Sound-Fits, Owned, set_queue-Sound}

Owned-append : (g : ℕ) (p q : List Item) → Owned g p → Owned g q → Owned g (p ++ q)
Owned-append g [] q a b = b
Owned-append g (x ∷ p) q a b = (a.0, Owned-append g p q (a.1) b)

aged :
    {c : List Copy} {ss : List Server} {h : ℕ} {q : List Item} {n : ℕ}
    → Fits c ss h q n
    → Fits c ss h q (n + 1)
aged f = record {
  unique = f.unique;
  fresh = λ a h. f.fresh a (omega arith);
  counted = f.counted;
  owned = f.owned;
}

-- A node put behind the others.
pub queued :
    {c : List Copy} {ss : List Server} {g : ℕ} {q : List Item} {n : ℕ} (x : Item)
    → Fits c ss g (x ∷ q) n
    → Fits c ss g (q ++ (x ∷ [])) n
unfolding count_address retained
queued {g = g} {q = q} x f = record {
  unique = λ a. omega (arith, f.unique a, count_address-append a q (x ∷ []));
  fresh = λ a h. omega (arith, f.fresh a h, count_address-append a q (x ∷ []));
  counted = λ a. omega (arith, f.counted a, retained-append a q (x ∷ []));
  owned = Owned-append g q (x ∷ []) (f.owned.1) (f.owned.0, tt);
}

-- A node with no copies taken out.
pub dropped :
    {c : List Copy} {ss : List Server} {g : ℕ} {q : List Item} {n : ℕ} (x : Item)
    → Fits c ss g (x ∷ q) n
    → (x.re_count == 0) ≡ true
    → Fits c ss g q n
unfolding count_address retained
dropped x f e = record {
  unique = λ a. omega (arith, f.unique a);
  fresh = λ a h. omega (arith, f.fresh a h);
  counted = λ a. ground (arith, f.counted a);
  owned = f.owned.1;
}

-- A new node at the next address.
joined :
    {c : List Copy} {ss : List Server} {g : ℕ} {q : List Item} {n : ℕ} (x : Item)
    → Fits c ss g q n
    → x.address ≡ n
    → x.monitor_id ≡ g
    → x.re_count ≡ 0
    → Fits c ss g (q ++ (x ∷ [])) (n + 1)
unfolding count_address retained
joined {g = g} {q = q} x f e o z = record {
  unique = λ a. ground (arith, f.unique a, f.fresh a, count_address-append a q (x ∷ []));
  fresh = λ a h. ground (arith, f.fresh a, count_address-append a q (x ∷ []));
  counted = λ a. ground (arith, f.counted a, retained-append a q (x ∷ []));
  owned = Owned-append g q (x ∷ []) f.owned (o, tt);
}

pub queue_node_add-Sound :
    (g : ℕ) (wd : ℤ) (monitorfile src : Text) (w : World)
    → IsSound w
    → IsSound (queue_node_add g wd monitorfile src w)
unfolding queue_node_add
queue_node_add-Sound g wd monitorfile src w s =
    set_queue-Sound [] w.servers w.queues (w.next_address + 1) g _
      (joined _ (Sound-Fits g s) refl refl refl) (λ h e. aged (Sound-Fits h s))

-- A server replaced: the copies that it had are in the new one or loose.
pub set_server-Sound :
    {c d : List Copy} {queues : ℕ → List Item} {n : ℕ} (ss : List Server) (i : ℕ) (s t : Server)
    → get_elem? ss i ≡ some s
    → ((g a : ℕ) → refs g a d + server_refs g a t ≡ refs g a c + server_refs g a s)
    → Sound c ss queues n
    → Sound d (set ss i t) queues n
set_server-Sound ss i s t e h f = record {
  unique = f.unique;
  fresh = f.fresh;
  counted = λ g a. omega (arith, f.counted g a, h g a, all_refs-set g a ss i s t e);
  owned = f.owned;
}
