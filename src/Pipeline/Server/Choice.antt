-- ===== src/Pipeline/Server/Choice.antt =====
-- The choice of upload_real_server_sche_rr (monitor.c): an available server with a shortest queue.
use mmdd_pro.Common.{
  ℕ, ◌≤◌, ◌<◌, ◌≡◌, refl, sym, subst, ◌∙◌, ◌⊎◌, inl, inr, Bool, true, false, List, [], ◌∷◌, Option,
  none, some, arith, ltb, ℤ, get_elem?, set, length, In, get_elem?-set, Option-cases, Bool-cases,
}
use mmdd_pro.Pipeline.State.{Server, ServerGroup}
use mmdd_pro.Pipeline.Server.{
  is_available, touch, Scan, consider, scan_round, scan, start_scan, rs_prime,
  upload_real_server_sche_rr,
}

-- What the choice depends on: whether a server is available, and the length of its queue.
abbrev look : ℤ → Option Server → Option (Bool × ℕ)
look now none = none
look now (some s) = some (is_available now s, length s.queue)

abbrev pub view : ℤ → List Server → ℕ → Option (Bool × ℕ)
view now ss i = look now (get_elem? ss i)

-- The clock is past the sleeping time of each server, so that one whose `cur_fst` was set to 0 is
-- available.
abbrev pub IsAwake : ℤ → List Server → Type 0
IsAwake now ss = (i : ℕ) (s : Server) → get_elem? ss i ≡ some s → is_available now (touch s) ≡ true

IsAwake-set :
    (now : ℤ) (ss : List Server) (i : ℕ) (s : Server)
    → get_elem? ss i ≡ some s
    → IsAwake now ss
    → IsAwake now (set ss i (touch s))
unfolding is_available
IsAwake-set now ss i s e w j t h = ground (arith, get_elem?-set ss i j s (touch s) e, w i s, w j t)

view-set :
    (now : ℤ) (ss : List Server) (i : ℕ) (s : Server)
    → get_elem? ss i ≡ some s
    → IsAwake now ss
    → is_available now s ≡ true
    → (j : ℕ) → view now (set ss i (touch s)) j ≡ view now ss j
view-set now ss i s e w a j = ground (arith, get_elem?-set ss i j s (touch s) e, w i s)

-- A round: the view stays, and the best so far is compared with this server.
record Round (now : ℤ) (r : Option ℕ) (c d : Scan) : Type 0 where
  awake : IsAwake now d.servers
  same : (j : ℕ) → view now d.servers j ≡ view now c.servers j
  below : d.queue_size_max ≤ c.queue_size_max
  least : (i n : ℕ) → r ≡ some i → view now c.servers i ≡ some (true, n) → d.queue_size_max ≤ n
  attained :
      ((d.re_queue ≡ c.re_queue) × (d.queue_size_max ≡ c.queue_size_max))
      ⊎ ((i : ℕ) × (d.re_queue ≡ some i)
          × (r ≡ some i)
          × (view now c.servers i ≡ some (true, d.queue_size_max))
          × (d.queue_size_max < c.queue_size_max))

stay-Round :
    (now : ℤ) (r : Option ℕ) (c : Scan)
    → IsAwake now c.servers
    → ((i n : ℕ) → r ≡ some i → view now c.servers i ≡ some (true, n) → c.queue_size_max ≤ n)
    → Round now r c c
stay-Round now r c w l = record {
  awake = w;
  same = λ j. refl;
  below = omega arith;
  least = l;
  attained = inl (refl, refl);
}

consider-Round :
    (now : ℤ) (i : ℕ) (s : Server) (c : Scan)
    → get_elem? c.servers i ≡ some s
    → IsAwake now c.servers
    → Round now (some i) c (consider now i s c)
unfolding consider
consider-Round now i s c e w = elim (Bool-cases (is_available now s)) [
  | inr no_way ↦
      rw (no_way, consider) (stay-Round now (some i) c w (λ j n p v. absurd (ground arith)))
  | inl ready ↦ elim (Bool-cases (ltb (length s.queue) c.queue_size_max)) [
    | inl shorter ↦
        rw (ready, shorter, consider)
          (record {
            awake = IsAwake-set now c.servers i s e w;
            same = view-set now c.servers i s e w ready;
            below = ground arith;
            least = λ j n p v. ground arith;
            attained = inr (i, refl, refl, ground arith, ground arith);
          })
    | inr longer ↦
        rw (ready, longer, consider)
          (record {
            awake = IsAwake-set now c.servers i s e w;
            same = view-set now c.servers i s e w ready;
            below = omega arith;
            least = λ j n p v. ground arith;
            attained = inl (refl, refl);
          })
  ]
]

scan_round-Round :
    (now : ℤ) (r : Option ℕ) (c : Scan) → IsAwake now c.servers → Round now r c (scan_round now r c)
unfolding scan_round
scan_round-Round now none c w = stay-Round now none c w (λ i n e v. absurd (ground arith))
scan_round-Round now (some i) c w = elim (Option-cases (get_elem? c.servers i)) [
  | inl e ↦ rw (e, scan_round) (stay-Round now (some i) c w (λ j n p v. absurd (ground arith)))
  | inr (s, e) ↦ rw (e, scan_round) (consider-Round now i s c e w)
]

-- The whole loop, against the servers as they were before it.
record Scanned (now : ℤ) (rs : List (Option ℕ)) (c d : Scan) : Type 0 where
  below : d.queue_size_max ≤ c.queue_size_max
  least : (i n : ℕ) → In (some i) rs → view now c.servers i ≡ some (true, n) → d.queue_size_max ≤ n
  attained :
      ((d.re_queue ≡ c.re_queue) × (d.queue_size_max ≡ c.queue_size_max))
      ⊎ ((i : ℕ) × (d.re_queue ≡ some i)
          × In (some i) rs
          × (view now c.servers i ≡ some (true, d.queue_size_max))
          × (d.queue_size_max < c.queue_size_max))

scan-Scanned :
    (now : ℤ) (rs : List (Option ℕ)) (c : Scan)
    → IsAwake now c.servers
    → Scanned now rs c (scan now rs c)
unfolding scan
scan-Scanned now [] c w = record {
  below = omega arith;
  least = λ i n m v. absurd m;
  attained = inl (refl, refl);
}
scan-Scanned now (r ∷ rs) c w =
    let round = scan_round-Round now r c w in
    let d = scan_round now r c in
    let later = scan-Scanned now rs d round.awake in
    record {
      below = omega (arith, later.below, round.below);
      least = λ i n m v. elim m [
        | inl e ↦ omega (arith, later.below, round.least i n (sym e) v)
        | inr m' ↦ later.least i n m' (round.same i ∙ v)
      ];
      attained = elim later.attained [
        | inl (e, f) ↦ elim round.attained [
          | inl (e', f') ↦ inl (e ∙ e', f ∙ f')
          | inr (i, e', p, v, lt) ↦
              inr (i, e ∙ e', inl (sym p), ground (arith, v, f), omega (arith, lt, f))
        ]
        | inr (i, e, m, v, lt) ↦
            inr (i, e, inr m, sym (round.same i) ∙ v, omega (arith, lt, round.below))
      ];
    }

-- The group's list for a type: UPLOAD_RSL_PRIME is true.
abbrev pub rs_of : Bool → ServerGroup → List (Option ℕ)
rs_of true g = rs_prime g
rs_of false g = g.rs_back

-- The choice on its servers before the call: an available server of the group with a queue below
-- the limit that no available server of the group undercuts; or none, when every available server
-- of the group has reached the limit.
abbrev pub IsShortest : ℤ → List (Option ℕ) → List Server → Option ℕ → Type 0
IsShortest now rs servers none =
    (i n : ℕ) → In (some i) rs → view now servers i ≡ some (true, n) → 10000000 ≤ n
IsShortest now rs servers (some i) =
    In (some i) rs
    × ((m : ℕ) × (view now servers i ≡ some (true, m))
        × (m < 10000000)
        × ((j n : ℕ) → In (some j) rs → view now servers j ≡ some (true, n) → m ≤ n))

Scanned-IsShortest :
    (now : ℤ) (rs : List (Option ℕ)) (servers : List Server) (d : Scan)
    → Scanned now rs (start_scan servers) d
    → IsShortest now rs servers d.re_queue
Scanned-IsShortest now rs servers d h = elim h.attained [
  | inl (e, f) ↦
      subst (IsShortest now rs servers) (sym e) (λ i n m v. omega (arith, h.least i n m v, f))
  | inr (i, e, m, v, lt) ↦
      subst (IsShortest now rs servers) (sym e) (m, (d.queue_size_max, v, lt, h.least))
]

-- upload_real_server_sche_rr returns the queue of an available server of the group with a shortest
-- queue, whatever its round-robin counter is; NULL if there is none below 10000000 entries. The
-- clock has to be past every server's sleeping time.
pub upload_real_server_sche_rr-IsShortest :
    (now : ℤ) (type : Bool) (g : ServerGroup) (servers : List Server)
    → IsAwake now servers
    → IsShortest now (rs_of type g) servers (upload_real_server_sche_rr now type g servers).0
unfolding upload_real_server_sche_rr
upload_real_server_sche_rr-IsShortest now true g servers w =
    Scanned-IsShortest now (rs_prime g) servers _ (scan-Scanned now (rs_prime g) _ w)
upload_real_server_sche_rr-IsShortest now false g servers w =
    Scanned-IsShortest now g.rs_back servers _ (scan-Scanned now g.rs_back _ w)
