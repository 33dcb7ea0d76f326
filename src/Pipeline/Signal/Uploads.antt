-- ===== src/Pipeline/Signal/Uploads.antt =====
-- What an upload thread (servers.c) does behind the signal.
use mmdd_pro.Common.{
  ℕ, zero, suc, ◌≤◌, ◌≡◌, refl, inl, inr, Bool, true, false, not, ◌&&◌, List, [], ◌∷◌, ◌++◌, Option,
  none, some, arith, if◌then◌else◌, Text, text_eq, ℤ, pos, eqb_ℤ, ltb_ℤ, get_elem?, set,
  get_elem?-set, length, Bool-cases,
}
use mmdd_pro.Pipeline.State.{Item, Copy, Server, Files, delete_file, World, Env}
use mmdd_pro.Pipeline.Schedule.{release, queue_node_free, set_queue}
use mmdd_pro.Pipeline.Flags.{flag_path}
use mmdd_pro.Pipeline.Finish.{do_upload_file_finish_single}
use mmdd_pro.Pipeline.Rounds.{set_server, remove_at, upload_end, end_on, increased}
use mmdd_pro.Pipeline.Serving.{Then}
use mmdd_pro.Pipeline.Signal.{held, Stopped}

pub either :
    (P : World → Type 0) (b : Bool) (r q : Option World)
    → Then P r
    → Then P q
    → Then P (if b then r else q)
either P true r q h k = h
either P false r q h k = k

length-remove_at : (xs : List Copy) (k : ℕ) → length (remove_at xs k) ≤ length xs
unfolding remove_at
length-remove_at [] k = omega arith
length-remove_at (x ∷ xs) zero = omega arith
length-remove_at (x ∷ xs) (suc k) = omega (arith, length-remove_at xs k)

held-set :
    (servers : List Server) (i j : ℕ) (s t : Server)
    → get_elem? servers i ≡ some s
    → length t.in_hand ≤ length s.in_hand
    → held (get_elem? (set servers i t) j) ≤ held (get_elem? servers j)
held-set servers i j s t at fewer = ground (arith, get_elem?-set servers i j s t at)

delete_file-fewer :
    (path : Text) (files before : Files) (p : Text)
    → (files p && not (before p)) ≡ false
    → (delete_file path files p && not (before p)) ≡ false
delete_file-fewer path files before p h = elim (Bool-cases (text_eq path p)) [
  | inl same ↦ rw (same) refl
  | inr other ↦ rw (other) h
]

module _ (w : World) where
  queue_node_free-Stopped :
      (c : Copy) (v : World) → Stopped w v → Then (Stopped w) (queue_node_free c v)
  unfolding queue_node_free
  queue_node_free-Stopped c v s = go (release c.orig (v.queues c.monitor_id))
    where
      go :
          (r : Option (List Item))
          → Then (Stopped w) (elim r as (λ _. Option World) [
            | none ↦ none
            | some q ↦ some (record v { queues = set_queue c.monitor_id q v.queues })
          ])
      go none = tt
      go (some q) = record {
        monitor_run = s.monitor_run;
        upload_run = s.upload_run;
        groups = s.groups;
        files = s.files;
        hands = s.hands;
      }

  -- A server that holds no more than before, and fewer files.
  set_server-Stopped :
      (i : ℕ) (v : World) (s t : Server) (files : Files)
      → get_elem? v.servers i ≡ some s
      → length t.in_hand ≤ length s.in_hand
      → ((p : Text) → (files p && not (w.files p)) ≡ false)
      → Stopped w v
      → Stopped w (record (set_server i t v) { files = files })
  unfolding set_server
  set_server-Stopped i v s t files at fewer gone st = record {
    monitor_run = st.monitor_run;
    upload_run = st.upload_run;
    groups = st.groups;
    files = gone;
    hands = λ j. omega (arith, held-set v.servers i j s t at fewer, st.hands j);
  }

  upload_end-Stopped :
      (env : Env) (i : ℕ) (s t : Server) (c : Copy) (ret : ℤ) (v : World)
      → get_elem? v.servers i ≡ some s
      → length t.in_hand ≤ length s.in_hand
      → Stopped w v
      → Then (Stopped w) (upload_end env i t c ret v)
  unfolding upload_end do_upload_file_finish_single set_server
  upload_end-Stopped env i s t c ret v at fewer st =
      let moni_name : Text = elim (get_elem? v.groups c.monitor_id) [
        | none ↦ []
        | some g ↦ g.name
      ] in
      let left = delete_file c.src v.files in
      let again : Server = record t { cur_rc = increased t.cur_rc; queue = t.queue ++ (c ∷ []) } in
      let failed : Server = record t { cur_rc = pos 0; cur_fst = env.now } in
      let given_up = set_server i failed v in
      either (Stopped w) (eqb_ℤ ret (pos 0)) _
        (if ltb_ℤ t.cur_rc t.retry_count
          then some (set_server i again v)
          else queue_node_free c given_up)
        (queue_node_free-Stopped c _ (
          set_server-Stopped i v s (record t { cur_rc = pos 0 })
            (do_upload_file_finish_single moni_name c left) at fewer
            (λ p.
              delete_file-fewer (flag_path c.monitorfile moni_name c.sg_name) left w.files p
                (delete_file-fewer c.src v.files w.files p (st.files p)))
            st))
        (either (Stopped w) (ltb_ℤ t.cur_rc t.retry_count) (some (set_server i again v))
          (queue_node_free c given_up) (set_server-Stopped i v s again v.files at fewer st.files st)
          (queue_node_free-Stopped c given_up
            (set_server-Stopped i v s failed v.files at fewer st.files st)))

  pub end_on-Stopped :
      (env : Env) (i k : ℕ) (ret : ℤ) (v : World) (o : Option Server)
      → get_elem? v.servers i ≡ o
      → Stopped w v
      → Then (Stopped w) (end_on env i k ret v o)
  unfolding end_on
  end_on-Stopped env i k ret v none at st = st
  end_on-Stopped env i k ret v (some s) at st = go (get_elem? s.in_hand k)
    where
      go :
          (o : Option Copy)
          → Then (Stopped w) (elim o as (λ _. Option World) [
            | none ↦ some v
            | some c ↦ upload_end env i (record s { in_hand = remove_at s.in_hand k }) c ret v
          ])
      go none = st
      go (some c) =
          upload_end-Stopped env i s (record s { in_hand = remove_at s.in_hand k }) c ret v at
            (length-remove_at s.in_hand k) st
