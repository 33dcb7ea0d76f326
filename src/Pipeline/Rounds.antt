-- ===== src/Pipeline/Rounds.antt =====
-- One round of sche_handle (monitor.c), and one of upload_handle (servers.c) in two steps, since
-- other threads run while the analyze library works on the file. `none` is a use after free.
pub mod Outcome
pub mod Starts
use mmdd_pro.Common.{
  ◌||◌, ℕ, zero, suc, ◌+◌, not, List, [], ◌∷◌, ◌++◌, Option, none, some, if◌then◌else◌, ◌==◌, Text,
  get_elem?, set, ℤ, pos, negsuc, eqb_ℤ, ltb_ℤ,
}
use mmdd_pro.Pipeline.State.{Item, Copy, Server, MonitorGroup, delete_file, World, Env}
use mmdd_pro.Pipeline.Server.{is_available, touch}
use mmdd_pro.Pipeline.Flags.{k_path, create_upload_state_file, do_upload_state_file_check}
use mmdd_pro.Pipeline.Finish.{do_upload_file_finish_all, do_upload_file_finish_single}
use mmdd_pro.Pipeline.Schedule.{set_queue, queue_node_free, queue_node_add, dispatch}

-- The loop over the server groups, and the node back into its queue.
unfoldable pub hand_to_servers : Env → ℕ → MonitorGroup → Item → List Item → World → World
hand_to_servers env g group node rest w =
    let d = dispatch env group.name w.files group.server_group_list w.servers node in
    record w {
      servers = d.servers;
      groups = set w.groups g (record group { server_group_list = d.groups });
      queues = set_queue g (rest ++ (d.node ∷ [])) w.queues;
    }

-- A node without copies whose source exists; `rest` is the queue behind it.
unfoldable pub process : Env → ℕ → MonitorGroup → Item → List Item → World → World
unfolding hand_to_servers
process env g group node rest w =
    let gs = group.server_group_list in
    let flagged = record w {
      files = create_upload_state_file w.servers group.name node.monitorfile gs w.files;
    } in
    let finished =
      do_upload_file_finish_all env group node (record w { queues = set_queue g rest w.queues }) in
    if not (w.files (k_path node.monitorfile))
    then hand_to_servers env g group node rest flagged
    else if do_upload_state_file_check w.servers group.name node.monitorfile gs w.files
    then finished
    else hand_to_servers env g group node rest w

-- The node popped from the queue of group `g`.
unfoldable pub sche_node : Env → ℕ → MonitorGroup → Item → List Item → World → World
unfolding process
sche_node env g group node rest w =
    if not (node.re_count == 0)
    then record w { queues = set_queue g (rest ++ (node ∷ [])) w.queues }
    else if not (w.files node.src)
    then record w { queues = set_queue g rest w.queues }
    else process env g group node rest w

unfoldable pub sche_pop : Env → ℕ → MonitorGroup → List Item → World → World
unfolding sche_node
sche_pop env g group [] w = w
sche_pop env g group (node ∷ rest) w = sche_node env g group node rest w

-- A group that is not there has no thread.
unfoldable pub sche_round : Env → ℕ → World → World
unfolding sche_pop
sche_round env g w = elim (get_elem? w.groups g) [
  | none ↦ w
  | some group ↦ if env.past_test || w.monitor_run then sche_pop env g group (w.queues g) w else w
]

unfoldable pub set_server : ℕ → Server → World → World
set_server i s w = record w { servers = set w.servers i s }

-- queue_node_pop and do_upload_file_checking: the copy goes to the hand of the thread, or is freed
-- because the server is sleeping off an error or the file is gone.
unfoldable pub upload_pop : Env → ℕ → Server → List Copy → World → Option World
unfolding set_server
upload_pop env i s [] w = some w
upload_pop env i s (c ∷ rest) w =
    let popped = record s { queue = rest } in
    if not (is_available env.now s)
    then queue_node_free c (set_server i popped w)
    else if not (w.files c.src)
    then queue_node_free c (set_server i (touch popped) w)
    else some (set_server i (record (touch popped) { in_hand = c ∷ s.in_hand }) w)

-- The rest of the list without its k-th member.
unfoldable pub remove_at {ℓ} : {A : Type ℓ} → List A → ℕ → List A
remove_at [] k = []
remove_at (x ∷ xs) zero = xs
remove_at (x ∷ xs) (suc k) = x ∷ remove_at xs k

-- cur_rc++
unfoldable pub increased : ℤ → ℤ
increased (pos n) = pos (n + 1)
increased (negsuc zero) = pos 0
increased (negsuc (suc n)) = negsuc n

-- do_upload_file and what follows it, for a copy whose analyze function returned `ret`; `s` is the
-- server without the copy in hand.
unfoldable pub upload_end : Env → ℕ → Server → Copy → ℤ → World → Option World
unfolding set_server increased
upload_end env i s c ret w =
    let moni_name : Text = elim (get_elem? w.groups c.monitor_id) [ none ↦ [] | some g ↦ g.name ] in
    let uploaded = record (set_server i (record s { cur_rc = pos 0 }) w) {
      files = do_upload_file_finish_single moni_name c (delete_file c.src w.files);
    } in
    let again =
      set_server i (record s { cur_rc = increased s.cur_rc; queue = s.queue ++ (c ∷ []) }) w in
    let failed = set_server i (record s { cur_rc = pos 0; cur_fst = env.now }) w in
    if eqb_ℤ ret (pos 0)
    then queue_node_free c uploaded
    else if ltb_ℤ s.cur_rc s.retry_count
    then some again
    else queue_node_free c failed

-- What a thread may do next: the monitor thread of group `g` has found a file, the scheduler of
-- `g` makes a round, a thread of server `i` pops a copy, or the analyze function of one returns
-- for the k-th copy in hand.
pub data Action : Type 0 where
  found : ℕ → ℤ → Text → Text → Action
  schedule : Env → ℕ → Action
  upload_begins : Env → ℕ → Action
  upload_ends : Env → ℕ → ℕ → ℤ → Action

unfoldable pub begin_on : Env → ℕ → World → Option Server → Option World
unfolding upload_pop
begin_on env i w none = some w
begin_on env i w (some s) =
    if env.past_test || w.upload_run then upload_pop env i s s.queue w else some w

unfoldable pub end_on : Env → ℕ → ℕ → ℤ → World → Option Server → Option World
unfolding upload_end remove_at
end_on env i k ret w none = some w
end_on env i k ret w (some s) = elim (get_elem? s.in_hand k) [
  | none ↦ some w
  | some c ↦ upload_end env i (record s { in_hand = remove_at s.in_hand k }) c ret w
]

unfoldable pub step : Action → World → Option World
unfolding queue_node_add sche_round begin_on end_on
step (found g wd monitorfile src) w = some (queue_node_add g wd monitorfile src w)
step (schedule env g) w = some (sche_round env g w)
step (upload_begins env i) w = begin_on env i w (get_elem? w.servers i)
step (upload_ends env i k ret) w = end_on env i k ret w (get_elem? w.servers i)

unfoldable pub run : List Action → World → Option World
unfolding step
run [] w = some w
run (a ∷ as') w = elim (step a w) [ none ↦ none | some w' ↦ run as' w' ]
