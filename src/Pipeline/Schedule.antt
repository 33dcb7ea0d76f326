-- ===== src/Pipeline/Schedule.antt =====
-- The queues of utils/encapsulate_queue.c and the rounds of the threads: sche_handle of monitor.c
-- and upload_handle of servers.c.
use mmdd_pro.Common.{
  ℕ, ◌+◌, ◌-◌, true, false, List, [], ◌∷◌, ◌++◌, Option, none, some, if◌then◌else◌, ◌==◌, Text,
  get_elem?, set, ℤ,
}
use mmdd_pro.Pipeline.State.{Item, Copy, Server, ServerGroup, Files, World, Env, name_of}
use mmdd_pro.Pipeline.Server.{upload_real_server_sche_rr}
use mmdd_pro.Pipeline.Flags.{group_flag}

-- The queue of one monitor group.
abbrev pub set_queue : ℕ → List Item → (ℕ → List Item) → ℕ → List Item
set_queue g q queues h = if g == h then q else queues h

-- queue_node_push on the queue of a server.
abbrev pub push_copy : List Server → ℕ → Copy → List Server
push_copy servers i c = elim (get_elem? servers i) [
  | none ↦ servers
  | some s ↦ set servers i (record s { queue = s.queue ++ (c ∷ []) })
]

-- queue_node_copy: the counter of the original goes up.
abbrev pub queue_node_copy : Item → Text → Copy
queue_node_copy node sg_name = record {
  orig = node.address;
  monitor_id = node.monitor_id;
  monitorfile = node.monitorfile;
  src = node.src;
  sg_name = sg_name;
}

-- __sync_fetch_and_sub(node->retain_count, 1) through the address of the original. `none`: there
-- is no such node any more.
unfoldable pub release : ℕ → List Item → Option (List Item)
release a [] = none
release a (x ∷ q) =
    let rest : Option (List Item) = elim (release a q) [ none ↦ none | some q' ↦ some (x ∷ q') ] in
    if x.address == a then some (record x { re_count = x.re_count - 1 } ∷ q) else rest

-- queue_node_free of a copy. `none`: the counter that it points to has been freed.
unfoldable pub queue_node_free : Copy → World → Option World
unfolding release
queue_node_free c w = elim (release c.orig (w.queues c.monitor_id)) [
  | none ↦ none
  | some q ↦ some (record w { queues = set_queue c.monitor_id q w.queues })
]

-- queue_node_add: a file found by the monitor of group `g`.
unfoldable pub queue_node_add : ℕ → ℤ → Text → Text → World → World
queue_node_add g wd monitorfile src w =
    let node : Item = record {
      address = w.next_address;
      monitor_id = g;
      wd = wd;
      monitorfile = monitorfile;
      src = src;
      re_count = 0;
    } in
    record w {
      queues = set_queue g (w.queues g ++ (node ∷ [])) w.queues;
      next_address = w.next_address + 1;
    }

-- The loop of sche_handle over the server groups: the groups with their counters, the servers and
-- the node.
pub record Dispatch : Type 0 where
  pub groups : List ServerGroup
  pub servers : List Server
  pub node : Item

unfoldable pub hand_out : ServerGroup → Option ℕ → List Server → Item → List Server × Item
hand_out g none servers node = (servers, node)
hand_out g (some i) servers node = (
  push_copy servers i (queue_node_copy node (name_of servers g.rs_first)),
  record node { re_count = node.re_count + 1 },
)

-- The first server queue of UPLOAD_RSL_PRIME, or else of UPLOAD_RSL_BACK.
unfoldable pub choose : ℤ → ServerGroup → List Server → Option ℕ × ServerGroup × List Server
choose now g servers =
    let first = upload_real_server_sche_rr now true g servers in
    elim (first.0) [
      | none ↦ upload_real_server_sche_rr now false (first.1) (first.2)
      | some i ↦ first
    ]

-- One server group.
unfoldable pub dispatch_one :
    Env → Text → Files → ServerGroup → List Server → Item → ServerGroup × List Server × Item
unfolding hand_out choose
dispatch_one env moni_name files g servers node =
    let chosen = choose env.now g servers in
    let out = hand_out g (chosen.0) (chosen.2) node in
    if files (group_flag servers moni_name node.monitorfile g)
    then (chosen.1, out.0, out.1)
    else (g, servers, node)

unfoldable pub dispatch : Env → Text → Files → List ServerGroup → List Server → Item → Dispatch
unfolding dispatch_one
dispatch env moni_name files [] servers node = record {
  groups = [];
  servers = servers;
  node = node;
}
dispatch env moni_name files (g ∷ gs) servers node =
    let one = dispatch_one env moni_name files g servers node in
    let rest = dispatch env moni_name files gs (one.1) (one.2) in
    record rest { groups = one.0 ∷ rest.groups }
