-- ===== src/Pipeline/Shutdown.antt =====
-- The end of the program, when its threads have been joined: servers_exit of servers.c,
-- monitor_group_exit of monitor.c and newiup_exit of main.c. What they free besides the nodes of the
-- queues (the threads' ids, the watched directories, the tables) and the log files are left out.
pub mod Copies
pub mod Laws
use mmdd_pro.Common.{ℕ, zero, suc, ◌+◌, List, [], ◌∷◌, Option, none, some, length, get_elem?}
use mmdd_pro.Pipeline.State.{Copy, Server, World}
use mmdd_pro.Pipeline.Schedule.{set_queue, queue_node_free}
use mmdd_pro.Pipeline.Rounds.{set_server}

abbrev pub then_do : Option World → (World → Option World) → Option World
then_do none k = none
then_do (some w) k = k w

-- The while loop over the queue `q` of server `i`: TAILQ_REMOVE of the first copy and
-- queue_node_free.
unfoldable pub free_copies : ℕ → Server → List Copy → World → Option World
unfolding set_server
free_copies i s [] w = some w
free_copies i s (c ∷ rest) w =
    then_do (queue_node_free c (set_server i (record s { queue = rest }) w)) (free_copies i s rest)

unfoldable pub free_server : ℕ → World → Option World
unfolding free_copies
free_server i w = elim (get_elem? w.servers i) [ none ↦ none | some s ↦ free_copies i s s.queue w ]

-- The for loop over `left` servers from the i-th one on.
unfoldable pub free_servers : ℕ → ℕ → World → Option World
unfolding free_server
free_servers i zero w = some w
free_servers i (suc left) w = then_do (free_server i w) (free_servers (suc i) left)

unfoldable pub servers_exit : World → Option World
unfolding free_servers
servers_exit w = then_do (free_servers 0 (length w.servers) w) λ v. some (record v { servers = [] })

-- The for loop over `left` groups from the i-th one on; every node of the queue is freed.
unfoldable pub free_groups : ℕ → ℕ → World → World
free_groups i zero w = w
free_groups i (suc left) w =
    free_groups (suc i) left (record w { queues = set_queue i [] w.queues })

unfoldable pub monitor_group_exit : World → World
unfolding free_groups
monitor_group_exit w = record (free_groups 0 (length w.groups) w) { groups = [] }

unfoldable pub newiup_exit : World → Option World
unfolding servers_exit monitor_group_exit
newiup_exit w = then_do (servers_exit w) λ v. some (monitor_group_exit v)
