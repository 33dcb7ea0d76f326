-- ===== src/Pipeline/Signal/Off.antt =====
-- The two run signals (monitor.c, servers.c) stay at NEWIUP_FAIL in every step of the threads.
use mmdd_pro.Common.{
  ℕ, ◌≡◌, refl, Bool, true, false, ◌||◌, not, List, [], ◌∷◌, ◌++◌, Option, none, some,
  if◌then◌else◌, ◌==◌, Text, ℤ, pos, eqb_ℤ, ltb_ℤ, signed32, get_elem?,
}
use mmdd_pro.Pipeline.State.{Item, Copy, Server, MonitorGroup, delete_file, World, Env}
use mmdd_pro.Pipeline.Server.{is_available, touch}
use mmdd_pro.Pipeline.Flags.{k_path, do_upload_state_file_check}
use mmdd_pro.Pipeline.Finish.{
  do_upload_file_finish_single, do_upload_file_limit, do_upload_file_finish_all,
}
use mmdd_pro.Pipeline.Schedule.{release, queue_node_free, queue_node_add, set_queue}
use mmdd_pro.Pipeline.Rounds.{
  Action, found, schedule, upload_begins, upload_ends, hand_to_servers, process, sche_node,
  sche_pop, sche_round, set_server, remove_at, increased, upload_pop, upload_end, begin_on, end_on,
  step, run,
}
use mmdd_pro.Pipeline.Serving.{Then}
use mmdd_pro.Pipeline.Signal.{signal_func}
use mmdd_pro.Pipeline.Signal.Uploads.{either}

abbrev pub Off : World → Type 0
Off w = (w.monitor_run ≡ false) × (w.upload_run ≡ false)

if_Off : (b : Bool) (v w : World) → Off v → Off w → Off (if b then v else w)
if_Off true v w h k = h
if_Off false v w h k = k

do_upload_file_limit-Off : (w : World) → Off w → Off (do_upload_file_limit w)
unfolding do_upload_file_limit
do_upload_file_limit-Off w off =
    if_Off (eqb_ℤ w.max_upload_num (pos 0)) _ _ off
      (if_Off (ltb_ℤ w.max_upload_num (signed32 w.upload_count)) _ _ (refl, refl) off)

process-Off :
    (env : Env) (g : ℕ) (group : MonitorGroup) (node : Item) (rest : List Item) (w : World)
    → Off w
    → Off (process env g group node rest w)
unfolding process hand_to_servers do_upload_file_finish_all
process-Off env g group node rest w off = if_Off (not (w.files (k_path node.monitorfile))) _ _ off (
    if_Off
      (do_upload_state_file_check w.servers group.name node.monitorfile group.server_group_list
        w.files)
      _ _ (do_upload_file_limit-Off (record w { queues = set_queue g rest w.queues }) off) off)

sche_pop-Off :
    (env : Env) (g : ℕ) (group : MonitorGroup) (q : List Item) (w : World)
    → Off w
    → Off (sche_pop env g group q w)
unfolding sche_pop sche_node
sche_pop-Off env g group [] w off = off
sche_pop-Off env g group (node ∷ rest) w off =
    if_Off (not (node.re_count == 0)) _ _ off
      (if_Off (not (w.files node.src)) _ _ off (process-Off env g group node rest w off))

sche_round-Off : (env : Env) (g : ℕ) (w : World) → Off w → Off (sche_round env g w)
unfolding sche_round
sche_round-Off env g w off = go (get_elem? w.groups g)
  where
    go :
        (o : Option MonitorGroup)
        → Off (elim o as (λ _. World) [
          | none ↦ w
          | some group ↦
              if env.past_test || w.monitor_run then sche_pop env g group (w.queues g) w else w
        ])
    go none = off
    go (some group) =
        if_Off (env.past_test || w.monitor_run) _ w (sche_pop-Off env g group (w.queues g) w off)
          off

queue_node_free-Off : (c : Copy) (w : World) → Off w → Then Off (queue_node_free c w)
unfolding queue_node_free
queue_node_free-Off c w off = go (release c.orig (w.queues c.monitor_id))
  where
    go :
        (r : Option (List Item))
        → Then Off (elim r as (λ _. Option World) [
          | none ↦ none
          | some q ↦ some (record w { queues = set_queue c.monitor_id q w.queues })
        ])
    go none = tt
    go (some q) = off

upload_pop-Off :
    (env : Env) (i : ℕ) (s : Server) (q : List Copy) (w : World)
    → Off w
    → Then Off (upload_pop env i s q w)
unfolding upload_pop set_server
upload_pop-Off env i s [] w off = off
upload_pop-Off env i s (c ∷ rest) w off =
    let popped = record s { queue = rest } in
    either Off (not (is_available env.now s)) (queue_node_free c (set_server i popped w))
      (if not (w.files c.src)
        then queue_node_free c (set_server i (touch popped) w)
        else some (set_server i (record (touch popped) { in_hand = c ∷ s.in_hand }) w))
      (queue_node_free-Off c (set_server i popped w) off)
      (either Off (not (w.files c.src)) (queue_node_free c (set_server i (touch popped) w))
        (some (set_server i (record (touch popped) { in_hand = c ∷ s.in_hand }) w))
        (queue_node_free-Off c (set_server i (touch popped) w) off) off)

begin_on-Off :
    (env : Env) (i : ℕ) (w : World) (o : Option Server) → Off w → Then Off (begin_on env i w o)
unfolding begin_on
begin_on-Off env i w none off = off
begin_on-Off env i w (some s) off =
    either Off (env.past_test || w.upload_run) (upload_pop env i s s.queue w) (some w)
      (upload_pop-Off env i s s.queue w off) off

upload_end-Off :
    (env : Env) (i : ℕ) (s : Server) (c : Copy) (ret : ℤ) (w : World)
    → Off w
    → Then Off (upload_end env i s c ret w)
unfolding upload_end set_server
upload_end-Off env i s c ret w off =
    let moni_name : Text = elim (get_elem? w.groups c.monitor_id) [ none ↦ [] | some g ↦ g.name ] in
    let uploaded = record (set_server i (record s { cur_rc = pos 0 }) w) {
      files = do_upload_file_finish_single moni_name c (delete_file c.src w.files);
    } in
    let again : Server = record s { cur_rc = increased s.cur_rc; queue = s.queue ++ (c ∷ []) } in
    let failed : Server = record s { cur_rc = pos 0; cur_fst = env.now } in
    either Off (eqb_ℤ ret (pos 0)) (queue_node_free c uploaded)
      (if ltb_ℤ s.cur_rc s.retry_count
        then some (set_server i again w)
        else queue_node_free c (set_server i failed w))
      (queue_node_free-Off c uploaded off)
      (either Off (ltb_ℤ s.cur_rc s.retry_count) (some (set_server i again w))
        (queue_node_free c (set_server i failed w)) off
        (queue_node_free-Off c (set_server i failed w) off))

end_on-Off :
    (env : Env) (i k : ℕ) (ret : ℤ) (w : World) (o : Option Server)
    → Off w
    → Then Off (end_on env i k ret w o)
unfolding end_on
end_on-Off env i k ret w none off = off
end_on-Off env i k ret w (some s) off = go (get_elem? s.in_hand k)
  where
    go :
        (o : Option Copy)
        → Then Off (elim o as (λ _. Option World) [
          | none ↦ some w
          | some c ↦ upload_end env i (record s { in_hand = remove_at s.in_hand k }) c ret w
        ])
    go none = off
    go (some c) = upload_end-Off env i (record s { in_hand = remove_at s.in_hand k }) c ret w off

step-Off : (a : Action) (w : World) → Off w → Then Off (step a w)
unfolding step queue_node_add
step-Off (found g wd monitorfile src) w off = off
step-Off (schedule env g) w off = sche_round-Off env g w off
step-Off (upload_begins env i) w off = begin_on-Off env i w (get_elem? w.servers i) off
step-Off (upload_ends env i k ret) w off = end_on-Off env i k ret w (get_elem? w.servers i) off

pub run-Off : (as' : List Action) (w : World) → Off w → Then Off (run as' w)
unfolding run
run-Off [] w off = off
run-Off (a ∷ as') w off = go (λ u. run-Off as' u) (step a w) (step-Off a w off)
  where
    go :
        ((u : World) → Off u → Then Off (run as' u))
        → (r : Option World) → Then Off r
        → Then Off (elim r as (λ _. Option World) [ none ↦ none | some u ↦ run as' u ])
    go k none h = tt
    go k (some u) h = k u h

pub signal_func-Off : (w : World) → Off (signal_func w)
unfolding signal_func
signal_func-Off w = (refl, refl)
