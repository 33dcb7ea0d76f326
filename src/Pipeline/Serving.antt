-- ===== src/Pipeline/Serving.antt =====
-- What one round of an upload thread (servers.c) leaves of the work of its server.
use mmdd_pro.Common.{
  ◌||◌, if◌then◌else◌, ℕ, zero, suc, ◌+◌, ◌≤◌, ◌≡◌, refl, sym, ap, subst, ◌∙◌, inl, inr, ◌⊎◌, Bool,
  true, false, List, [], ◌∷◌, ◌++◌, Option, none, some, arith, ℤ, pos, pos_part, eqb_ℤ, ltb_ℤ,
  Bool-cases, get_elem?, set, get_elem?-set, length, length-append,
}
use mmdd_pro.Pipeline.State.{Item, Copy, Server, World, Env}
use mmdd_pro.Pipeline.Server.{is_available, touch}
use mmdd_pro.Pipeline.Schedule.{release, queue_node_free, set_queue}
use mmdd_pro.Pipeline.Rounds.{
  begin_on, end_on, set_server, upload_pop, upload_end, remove_at, increased,
}

-- The rounds for `n` copies: each may be tried again `R` times.
abbrev pub rounds_for : ℕ → ℕ → ℕ
rounds_for zero R = 0
rounds_for (suc n) R = rounds_for n R + suc R

-- An upload thread of server `i` that holds the copies `hand`; its queue is empty after `m` rounds.
pub record Serving (i R m : ℕ) (hand : List Copy) (w : World) : Type 0 where
  pub server : Server
  pub there : get_elem? w.servers i ≡ some server
  pub held : server.in_hand ≡ hand
  pub limit : pos_part server.retry_count ≤ R
  pub failures : ℕ
  pub counted : server.cur_rc ≡ pos failures
  pub few : failures ≤ R
  pub enough : rounds_for (length (hand ++ server.queue)) R ≤ m + failures
  pub on : w.upload_run ≡ true

abbrev pub Then : (World → Type 0) → Option World → Type 0
Then P none = Unit
Then P (some w) = P w

running :
    (P : World → Type 0) (b : Bool) (r : Option World) (w : World)
    → b ≡ true
    → Then P r
    → Then P (if b then r else some w)
running P true r w e h = h
running P false r w e h = cc

-- A predicate of the world that an operation gives, if it gives one.
pub then_at : (P : World → Type 0) (r : Option World) {v : World} → Then P r → r ≡ some v → P v
then_at P none h e = cc
then_at P (some w) h e = subst (λ r. Then P r) e h

module _ (i R : ℕ) where
  queue_node_free-Serving :
      (m : ℕ) (hand : List Copy) (P : World → Type 0) (c : Copy) (v : World)
      → ((u : World) → Serving i R m hand u → P u)
      → Serving i R m hand v
      → Then P (queue_node_free c v)
  unfolding queue_node_free
  queue_node_free-Serving m hand P c v k s = go (release c.orig (v.queues c.monitor_id))
    where
      go :
          (r : Option (List Item))
          → Then P (elim r as (λ _. Option World) [
            | none ↦ none
            | some q ↦ some (record v { queues = set_queue c.monitor_id q v.queues })
          ])
      go none = tt
      go (some q) = k _ (record {
        server = s.server;
        there = s.there;
        held = s.held;
        limit = s.limit;
        failures = s.failures;
        counted = s.counted;
        few = s.few;
        enough = s.enough;
        on = s.on;
      })

  more :
      (cur retry : ℤ) (n : ℕ)
      → ltb_ℤ cur retry ≡ true
      → cur ≡ pos n
      → pos_part retry ≤ R
      → n + 1 ≤ R
  more cur retry n h e l = ground (arith, e)

  longer : (q : List Copy) (c : Copy) → length (q ++ (c ∷ [])) ≡ suc (length q)
  longer q c = omega (arith, length-append q (c ∷ []))

  -- A server in the place of another.
  replaced :
      (w : World) {s : Server} (t : Server)
      → get_elem? w.servers i ≡ some s
      → get_elem? (set w.servers i t) i ≡ some t
  replaced w t e = ground (arith, get_elem?-set w.servers i i _ t e)

  abbrev pub Begun : ℕ → World → Type 0
  Begun m v = Serving i R m [] v ⊎ ((c : Copy) × Serving i R (suc m) (c ∷ []) v)

  upload_pop-Begun :
      (m : ℕ) (env : Env) (w : World) (s : Serving i R (suc m) [] w) (q : List Copy)
      → s.server.queue ≡ q
      → Then (Begun m) (upload_pop env i s.server q w)
  unfolding upload_pop set_server
  upload_pop-Begun m env w s [] at = inl (record {
    server = s.server;
    there = s.there;
    held = s.held;
    limit = s.limit;
    failures = s.failures;
    counted = s.counted;
    few = s.few;
    enough = omega (arith, ap (λ r. rounds_for (length r) R) at);
    on = s.on;
  })
  upload_pop-Begun m env w s (c ∷ rest) at =
      let popped = record s.server { queue = rest } in
      let fewer = ap (λ r. rounds_for (length r) R) at in
      let freed : (t : Server)
          → t.queue ≡ rest
          → t.in_hand ≡ s.server.in_hand
          → t.retry_count ≡ s.server.retry_count
          → t.cur_rc ≡ s.server.cur_rc
          → Then (Begun m) (queue_node_free c (set_server i t w)) =
        λ t e1 e2 e3 e4.
          queue_node_free-Serving m [] (Begun m) c (set_server i t w) (λ u h. inl h)
            (record {
              server = t;
              there = replaced w t s.there;
              held = e2 ∙ s.held;
              limit = subst (λ z. pos_part z ≤ R) (sym e3) s.limit;
              failures = s.failures;
              counted = e4 ∙ s.counted;
              few = s.few;
              enough = omega (arith, s.enough, fewer, ap (λ r. rounds_for (length r) R) e1);
              on = s.on;
            }) in
      elim (Bool-cases (is_available env.now s.server)) [
        | inr asleep ↦ rw (asleep, upload_pop) (freed popped refl refl refl refl)
        | inl ready ↦ elim (Bool-cases (w.files c.src)) [
          | inr gone ↦ rw (ready, gone, upload_pop) (freed (touch popped) refl refl refl refl)
          | inl found ↦
              rw (ready, found, upload_pop)
                (inr (
                  c,
                  record {
                    server = record (touch popped) { in_hand = c ∷ s.server.in_hand };
                    there = replaced w _ s.there;
                    held = ap (λ h. c ∷ h) s.held;
                    limit = s.limit;
                    failures = s.failures;
                    counted = s.counted;
                    few = s.few;
                    enough = omega (arith, s.enough, fewer);
                    on = s.on;
                  },
                ))
        ]
      ]

  upload_end-Serving :
      (m : ℕ) (env : Env) (c : Copy) (ret : ℤ) (w : World) (s : Serving i R (suc m) (c ∷ []) w)
      → Then (Serving i R m []) (upload_end env i (record s.server { in_hand = [] }) c ret w)
  unfolding upload_end set_server
  upload_end-Serving m env c ret w s =
      let t = record s.server { in_hand = [] } in
      let done = λ (u : World) (h : Serving i R m [] u). h in
      elim (Bool-cases (eqb_ℤ ret (pos 0))) [
        | inl good ↦
            rw (good, upload_end)
              (queue_node_free-Serving m [] (Serving i R m []) c _ done (record {
                server = record t { cur_rc = pos 0 };
                there = replaced w _ s.there;
                held = refl;
                limit = s.limit;
                failures = 0;
                counted = refl;
                few = omega arith;
                enough = omega (arith, s.enough, s.few);
                on = s.on;
              }))
        | inr bad ↦ elim (Bool-cases (ltb_ℤ s.server.cur_rc s.server.retry_count)) [
          | inl retry ↦
              rw (bad, retry, upload_end)
                (record {
                  server = record t {
                    cur_rc = increased s.server.cur_rc;
                    queue = s.server.queue ++ (c ∷ []);
                  };
                  there = replaced w _ s.there;
                  held = refl;
                  limit = s.limit;
                  failures = s.failures + 1;
                  counted = ap increased s.counted;
                  few =
                      more (s.server.cur_rc) (s.server.retry_count) s.failures retry s.counted
                        s.limit;
                  enough =
                      omega (arith, s.enough, ap (λ n. rounds_for n R) (longer s.server.queue c));
                  on = s.on;
                })
          | inr stop ↦
              rw (bad, stop, upload_end)
                (queue_node_free-Serving m [] (Serving i R m []) c _ done (record {
                  server = record t { cur_rc = pos 0; cur_fst = env.now };
                  there = replaced w _ s.there;
                  held = refl;
                  limit = s.limit;
                  failures = 0;
                  counted = refl;
                  few = omega arith;
                  enough = omega (arith, s.enough, s.few);
                  on = s.on;
                }))
        ]
      ]

  pub begin_on-Begun :
      (m : ℕ) (env : Env) (w : World)
      → Serving i R (suc m) [] w
      → Then (Begun m) (begin_on env i w (get_elem? w.servers i))
  unfolding begin_on
  begin_on-Begun m env w s =
      rw (s.there, begin_on)
        (running (Begun m) (env.past_test || w.upload_run) _ w (ground (arith, s.on))
          (upload_pop-Begun m env w s s.server.queue refl))

  pub end_on-Serving :
      (m : ℕ) (env : Env) (ret : ℤ) (w : World)
      → Begun m w
      → Then (Serving i R m []) (end_on env i 0 ret w (get_elem? w.servers i))
  unfolding end_on remove_at
  end_on-Serving m env ret w (inl s) = rw (s.there, s.held, end_on) s
  end_on-Serving m env ret w (inr (c, s)) =
      rw (s.there, s.held, end_on)
        (subst
          (λ h.
            Then (Serving i R m []) (upload_end env i (record s.server { in_hand = h }) c ret w))
          (sym (ap (λ h. remove_at h 0) s.held)) (upload_end-Serving m env c ret w s))
