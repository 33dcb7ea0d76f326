-- ===== src/Pipeline/Rounds/Outcome.antt =====
-- What the next round of sche_handle (monitor.c) does after an upload has succeeded (servers.c).
use mmdd_pro.Common.{
  ◌||◌, ℕ, ◌≡◌, refl, sym, ap, subst, ◌∙◌, inl, inr, Bool, true, false, List, ◌∷◌, Option, none,
  some, arith, if◌then◌else◌, ◌==◌, Text, text_eq_refl, pos, get_elem?, Bool-cases,
}
use mmdd_pro.Pipeline.State.{Item, Copy, Server, MonitorGroup, Files, World, Env, delete_file}
use mmdd_pro.Pipeline.Finish.{do_upload_file_finish_single}
use mmdd_pro.Pipeline.Schedule.{release, queue_node_free, set_queue}
use mmdd_pro.Pipeline.Rounds.{sche_node, sche_pop, sche_round, upload_end}

abbrev files_or : Files → Option World → Files
files_or files none = files
files_or files (some w) = w.files

queue_node_free-files : (c : Copy) (v w : World) → queue_node_free c v ≡ some w → w.files ≡ v.files
unfolding queue_node_free
queue_node_free-files c v w e =
    sym (ap (files_or v.files) e) ∙ go (release c.orig (v.queues c.monitor_id))
  where
    go :
        (r : Option (List Item))
        → files_or v.files (elim r [
          | none ↦ none
          | some q ↦ some (record v { queues = set_queue c.monitor_id q v.queues })
        ])
          ≡ v.files
    go none = refl
    go (some q) = refl

deleted :
    (path flag : Text) (files : Files) → delete_file flag (delete_file path files) path ≡ false
deleted path flag files = ground (arith, text_eq_refl path)

upload_end-src :
    (env : Env) (i : ℕ) (s : Server) (c : Copy) (w : World) {w' : World}
    → upload_end env i s c (pos 0) w ≡ some w'
    → w'.files c.src ≡ false
unfolding upload_end do_upload_file_finish_single
upload_end-src env i s c w {w'} e =
    ap (λ f. f c.src) (queue_node_free-files c _ w' e) ∙ deleted c.src _ w.files

either_files : (b : Bool) (v w : World) → v.files ≡ w.files → (if b then v else w).files ≡ w.files
either_files true v w e = e
either_files false v w e = refl

sche_node-files :
    (env : Env) (g : ℕ) (group : MonitorGroup) (node : Item) (rest : List Item) (w : World)
    → w.files node.src ≡ false
    → (sche_node env g group node rest w).files ≡ w.files
unfolding sche_node
sche_node-files env g group node rest w gone = elim (Bool-cases (node.re_count == 0)) [
  | inl idle ↦ rw (idle, gone, sche_node) refl
  | inr busy ↦ rw (busy, sche_node) refl
]

sche_pop-files :
    (env : Env) (g : ℕ) (group : MonitorGroup) (q : List Item) (node : Item) (rest : List Item)
    (w : World)
    → q ≡ node ∷ rest
    → w.files node.src ≡ false
    → (sche_pop env g group q w).files ≡ w.files
unfolding sche_pop
sche_pop-files env g group q node rest w e gone =
    subst (λ r. (sche_pop env g group r w).files ≡ w.files) (sym e)
      (sche_node-files env g group node rest w gone)

-- After an upload that succeeded, a round of the scheduler that follows it at once and begins with a
-- node of the same source leaves all files as they are: neither the monitored file nor the -upload-k
-- file is deleted.
pub sche_round-upload_end :
    (env later : Env) (i : ℕ) (s : Server) (c : Copy) (w : World) (g : ℕ) (node : Item)
    (rest : List Item) {w' : World}
    → upload_end env i s c (pos 0) w ≡ some w'
    → w'.queues g ≡ node ∷ rest
    → node.src ≡ c.src
    → (sche_round later g w').files ≡ w'.files
unfolding sche_round
sche_round-upload_end env later i s c w g node rest {w'} e first same = go (get_elem? w'.groups g)
  where
    go :
        (r : Option MonitorGroup)
        → (elim r as (λ _. World) [
          | none ↦ w'
          | some group ↦
              if later.past_test || w'.monitor_run
              then sche_pop later g group (w'.queues g) w'
              else w'
        ]).files
          ≡ w'.files
    go none = refl
    go (some group) = either_files (later.past_test || w'.monitor_run) _ w' (
        sche_pop-files later g group (w'.queues g) node rest w' first
          (ap w'.files same ∙ upload_end-src env i s c w e))
