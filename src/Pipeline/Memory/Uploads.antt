-- ===== src/Pipeline/Memory/Uploads.antt =====
-- What the upload threads do (servers.c) keeps the counters of the nodes equal to the numbers of
-- their copies.
use mmdd_pro.Common.{
  ℕ, ◌+◌, ◌≡◌, refl, ap, inl, inr, List, [], ◌∷◌, Option, some, arith, ℤ, pos, eqb_ℤ, ltb_ℤ,
  Bool-cases, get_elem?, set,
}
use mmdd_pro.Pipeline.State.{Copy, Server, World, Env}
use mmdd_pro.Pipeline.Server.{is_available, touch}
use mmdd_pro.Pipeline.Rounds.{set_server, upload_pop, upload_end, remove_at}
use mmdd_pro.Pipeline.Counting.{is_ref, refs, server_refs, refs-append, refs-remove_at}
use mmdd_pro.Pipeline.Memory.{Sound, IsSound, queue_node_free-Sound}
use mmdd_pro.Pipeline.Memory.Queues.{set_server-Sound}

-- The world after an operation that may use a counter that has been freed.
abbrev pub GoesOn : Option World → Type 0
GoesOn r = (w : World) × (r ≡ some w) × IsSound w

pub upload_pop-Sound :
    (env : Env) (i : ℕ) (s : Server) (w : World)
    → get_elem? w.servers i ≡ some s
    → IsSound w
    → GoesOn (upload_pop env i s s.queue w)
unfolding upload_pop set_server refs
upload_pop-Sound env i s w e sound = pop s.queue refl
  where
    replaced :
        (d : List Copy) (t : Server)
        → ((g a : ℕ) → refs g a d + server_refs g a t ≡ refs g a [] + server_refs g a s)
        → Sound d (set w.servers i t) w.queues w.next_address
    replaced d t h = set_server-Sound w.servers i s t e h sound

    pop : (q : List Copy) → s.queue ≡ q → GoesOn (upload_pop env i s q w)
    pop [] at = (w, refl, sound)
    pop (c ∷ rest) at =
        let left : (g a : ℕ) → refs g a s.queue ≡ is_ref g a c + refs g a rest =
          λ g a. ap (refs g a) at in
        let popped = record s { queue = rest } in
        elim (Bool-cases (is_available env.now s)) [
          | inr asleep ↦
              rw (asleep, upload_pop)
                (queue_node_free-Sound c (set_server i popped w)
                  (replaced (c ∷ []) popped (λ g a. omega (arith, left g a))))
          | inl ready ↦ elim (Bool-cases (w.files c.src)) [
            | inr gone ↦
                rw (ready, gone, upload_pop)
                  (queue_node_free-Sound c (set_server i (touch popped) w)
                    (replaced (c ∷ []) (touch popped) (λ g a. omega (arith, left g a))))
            | inl there ↦
                rw (ready, there, upload_pop)
                  (
                    _,
                    refl,
                    replaced [] (record (touch popped) { in_hand = c ∷ s.in_hand })
                        (λ g a. omega (arith, left g a)),
                  )
          ]
        ]

pub upload_end-Sound :
    (env : Env) (i k : ℕ) (s : Server) (c : Copy) (ret : ℤ) (w : World)
    → get_elem? w.servers i ≡ some s
    → get_elem? s.in_hand k ≡ some c
    → IsSound w
    → GoesOn (upload_end env i (record s { in_hand = remove_at s.in_hand k }) c ret w)
unfolding upload_end set_server refs
upload_end-Sound env i k s c ret w e at sound =
    let t = record s { in_hand = remove_at s.in_hand k } in
    let held = λ (g a : ℕ). refs-remove_at g a s.in_hand k c at in
    let back = λ (g a : ℕ). refs-append g a s.queue (c ∷ []) in
    elim (Bool-cases (eqb_ℤ ret (pos 0))) [
      | inl good ↦
          rw (good, upload_end)
            (queue_node_free-Sound c _ (
              set_server-Sound w.servers i s (record t { cur_rc = pos 0 }) e
                (λ g a. omega (arith, held g a)) sound))
      | inr bad ↦ elim (Bool-cases (ltb_ℤ s.cur_rc s.retry_count)) [
        | inl retry ↦
            rw (bad, retry, upload_end)
              (
                _,
                refl,
                set_server-Sound w.servers i s _ e (λ g a. omega (arith, held g a, back g a)) sound,
              )
        | inr stop ↦
            rw (bad, stop, upload_end)
              (queue_node_free-Sound c _ (
                set_server-Sound w.servers i s (record t { cur_rc = pos 0; cur_fst = env.now }) e
                  (λ g a. omega (arith, held g a)) sound))
      ]
    ]
