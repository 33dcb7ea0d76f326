-- ===== src/Pipeline/Dispatch.antt =====
-- The loop of sche_handle (monitor.c) over the server groups: each copy that it hands out is counted
-- in the node, and goes to a queue that is there.
use mmdd_pro.Common.{
  ℕ, ◌+◌, ◌<◌, ◌≡◌, refl, ◌∙◌, inl, inr, Bool, true, false, ◌&&◌, ◌++◌, List, [], ◌∷◌, Option, none,
  some, arith, if◌then◌else◌, ◌==◌, ltb, ℤ, get_elem?, length, Text, Option-cases, Bool-cases,
  length-set, get_elem?-lt, get_elem?_of_lt,
}
use mmdd_pro.Pipeline.State.{Item, Copy, Server, ServerGroup, Files, Env, name_of}
use mmdd_pro.Pipeline.Server.{
  is_available, touch, Scan, consider, scan_round, scan, start_scan, rs_prime,
  upload_real_server_sche_rr,
}
use mmdd_pro.Pipeline.Flags.{group_flag}
use mmdd_pro.Pipeline.Schedule.{
  push_copy, queue_node_copy, hand_out, choose, dispatch_one, dispatch,
}
use mmdd_pro.Pipeline.Counting.{is_ref, refs, all_refs, refs-append, all_refs-set}

abbrev IsIndex : List Server → Option ℕ → Type 0
IsIndex ss none = Unit {0}
IsIndex ss (some i) = i < length ss

IsIndex-size :
    (ss ts : List Server) (r : Option ℕ) → length ts ≡ length ss → IsIndex ss r → IsIndex ts r
IsIndex-size ss ts none e h = tt
IsIndex-size ss ts (some i) e h = omega arith

-- A scan keeps the number of servers and their copies, and finds a server that is there.
record Kept (c d : Scan) : Type 0 where
  size : length d.servers ≡ length c.servers
  held : (g a : ℕ) → all_refs g a d.servers ≡ all_refs g a c.servers
  index : IsIndex c.servers c.re_queue → IsIndex d.servers d.re_queue

consider-Kept :
    (now : ℤ) (i : ℕ) (s : Server) (c : Scan)
    → get_elem? c.servers i ≡ some s
    → Kept c (consider now i s c)
unfolding consider
consider-Kept now i s c e =
    let n = length-set c.servers i (touch s) in
    let lt = get_elem?-lt c.servers i s e in
    let same = λ (g a : ℕ). all_refs-set g a c.servers i s (touch s) e in
    elim (Bool-cases (is_available now s)) [
      | inr no_way ↦
          rw (no_way, consider) (record { size = refl; held = λ g a. refl; index = λ h. h })
      | inl ready ↦ elim (Bool-cases (ltb (length s.queue) c.queue_size_max)) [
        | inl shorter ↦
            rw (ready, shorter, consider)
              (record {
                size = n;
                held = λ g a. omega (arith, same g a);
                index = λ h. omega (arith, n, lt);
              })
        | inr longer ↦
            rw (ready, longer, consider)
              (record {
                size = n;
                held = λ g a. omega (arith, same g a);
                index = λ h. IsIndex-size _ _ c.re_queue n h;
              })
      ]
    ]

scan_round-Kept : (now : ℤ) (r : Option ℕ) (c : Scan) → Kept c (scan_round now r c)
unfolding scan_round
scan_round-Kept now none c = record { size = refl; held = λ g a. refl; index = λ h. h }
scan_round-Kept now (some i) c = elim (Option-cases (get_elem? c.servers i)) [
  | inl e ↦ rw (e, scan_round) (record { size = refl; held = λ g a. refl; index = λ h. h })
  | inr (s, e) ↦ rw (e, scan_round) (consider-Kept now i s c e)
]

scan-Kept : (now : ℤ) (rs : List (Option ℕ)) (c : Scan) → Kept c (scan now rs c)
unfolding scan
scan-Kept now [] c = record { size = refl; held = λ g a. refl; index = λ h. h }
scan-Kept now (r ∷ rs) c =
    let one = scan_round-Kept now r c in
    let rest = scan-Kept now rs (scan_round now r c) in
    record {
      size = rest.size ∙ one.size;
      held = λ g a. rest.held g a ∙ one.held g a;
      index = λ h. rest.index (one.index h);
    }

-- A choice: the servers keep their number and their copies, and the index is one of them.
pub record Chosen (ss : List Server) (r : Option ℕ) (ts : List Server) : Type 0 where
  pub size : length ts ≡ length ss
  pub held : (g a : ℕ) → all_refs g a ts ≡ all_refs g a ss
  pub index : IsIndex ts r

sche_rr-Chosen :
    (now : ℤ) (type : Bool) (g : ServerGroup) (ss : List Server)
    → let r = upload_real_server_sche_rr now type g ss in Chosen ss (r.0) (r.2)
unfolding upload_real_server_sche_rr
sche_rr-Chosen now true g ss =
    let k = scan-Kept now (rs_prime g) (start_scan ss) in
    record { size = k.size; held = k.held; index = k.index tt }
sche_rr-Chosen now false g ss =
    let k = scan-Kept now g.rs_back (start_scan ss) in
    record { size = k.size; held = k.held; index = k.index tt }

choose-Chosen :
    (now : ℤ) (g : ServerGroup) (ss : List Server)
    → let r = choose now g ss in Chosen ss (r.0) (r.2)
unfolding choose
choose-Chosen now g ss =
    let one = sche_rr-Chosen now true g ss in
    let two =
      sche_rr-Chosen now false (upload_real_server_sche_rr now true g ss).1
        (upload_real_server_sche_rr now true g ss).2 in
    elim (Option-cases (upload_real_server_sche_rr now true g ss).0) [
      | inl e ↦
          rw (e, choose)
            (record {
              size = two.size ∙ one.size;
              held = λ g a. two.held g a ∙ one.held g a;
              index = two.index;
            })
      | inr (i, e) ↦ rw (e, choose) (record { size = one.size; held = one.held; index = one.index })
    ]

-- The counter of a node, if it is the one at address `a` of group `g`.
abbrev pub own : ℕ → ℕ → Item → ℕ
own g a x = if x.monitor_id == g && x.address == a then x.re_count else 0

-- What handing out does: as many new copies of the node as its counter went up.
pub record Handed (ss : List Server) (x : Item) (ts : List Server) (y : Item) : Type 0 where
  pub counted : (g a : ℕ) → all_refs g a ts + own g a x ≡ all_refs g a ss + own g a y
  pub address : y.address ≡ x.address
  pub monitor_id : y.monitor_id ≡ x.monitor_id

push_copy-refs :
    (h a : ℕ) (ss : List Server) (i : ℕ) (s : Server) (c : Copy)
    → get_elem? ss i ≡ some s
    → all_refs h a (push_copy ss i c) ≡ all_refs h a ss + is_ref h a c
unfolding refs
push_copy-refs h a ss i s c e =
    let moved = all_refs-set h a ss i s (record s { queue = s.queue ++ (c ∷ []) }) e in
    let added = refs-append h a s.queue (c ∷ []) in rw (e, push_copy) (omega (arith, moved, added))

one_more :
    (b : Bool) (n : ℕ) → (if b then 1 else 0) + (if b then n else 0) ≡ (if b then n + 1 else 0)
one_more true n = omega arith
one_more false n = refl

hand_out-Handed :
    (g : ServerGroup) (r : Option ℕ) (ss ts : List Server) (x : Item)
    → Chosen ss r ts
    → let o = hand_out g r ts x in Handed ss x (o.0) (o.1)
unfolding hand_out
hand_out-Handed g none ss ts x c = record {
  counted = λ h a. omega (arith, c.held h a);
  address = refl;
  monitor_id = refl;
}
hand_out-Handed g (some i) ss ts x c =
    let (s, e) = get_elem?_of_lt ts i c.index in
    let copy = queue_node_copy x (name_of ts g.rs_first) in
    record {
      counted = λ h a.
          let up = one_more (x.monitor_id == h && x.address == a) x.re_count in
          omega (arith, push_copy-refs h a ts i s copy e, c.held h a, up);
      address = refl;
      monitor_id = refl;
    }

dispatch_one-Handed :
    (env : Env) (moni_name : Text) (files : Files) (g : ServerGroup) (ss : List Server) (x : Item)
    → let o = dispatch_one env moni_name files g ss x in Handed ss x (o.1) (o.2)
unfolding dispatch_one
dispatch_one-Handed env moni_name files g ss x =
    let c = choose env.now g ss in
    elim (Bool-cases (files (group_flag ss moni_name x.monitorfile g))) [
      | inl e ↦
          rw (e, dispatch_one) (hand_out-Handed g (c.0) ss (c.2) x (choose-Chosen env.now g ss))
      | inr e ↦
          rw (e, dispatch_one) (record { counted = λ h a. refl; address = refl; monitor_id = refl })
    ]

pub dispatch-Handed :
    (env : Env) (moni_name : Text) (files : Files) (gs : List ServerGroup) (ss : List Server)
    (x : Item)
    → let d = dispatch env moni_name files gs ss x in Handed ss x d.servers d.node
unfolding dispatch
dispatch-Handed env moni_name files [] ss x = record {
  counted = λ h a. refl;
  address = refl;
  monitor_id = refl;
}
dispatch-Handed env moni_name files (g ∷ gs) ss x =
    let one = dispatch_one-Handed env moni_name files g ss x in
    let out = dispatch_one env moni_name files g ss x in
    let rest = dispatch-Handed env moni_name files gs (out.1) (out.2) in
    record {
      counted = λ h a. omega (arith, one.counted h a, rest.counted h a);
      address = rest.address ∙ one.address;
      monitor_id = rest.monitor_id ∙ one.monitor_id;
    }
