-- ===== src/Watch.antt =====
-- The lists that are searched by name or by number: the watched directories of
-- utils/encapsulate_queue.c (Wd_node and its lookups, del_monitor_dir) and the servers of servers.c.
pub mod Laws
use mmdd_pro.Common.{
  ℕ, zero, suc, Bool, true, false, List, [], ◌∷◌, Option, none, some, if◌then◌else◌, Text, text_eq,
  ℤ, pos, eqb_ℤ, minus_one,
}
use mmdd_pro.Pipeline.State.{Server}

pub record WdNode : Type 0 where
  pub wd : ℤ
  pub path : Text
  pub suboffset : ℕ
  pub subpath : Text

-- The four lookups return a field of the first member that matches, or the member.
unfoldable pub get_wd_by_wd : List WdNode → ℤ → Option WdNode
get_wd_by_wd [] wd = none
get_wd_by_wd (node ∷ head) wd = if eqb_ℤ node.wd wd then some node else get_wd_by_wd head wd

unfoldable pub get_wd_path_by_wd : List WdNode → ℤ → Option Text
get_wd_path_by_wd [] wd = none
get_wd_path_by_wd (node ∷ head) wd =
    if eqb_ℤ node.wd wd then some node.path else get_wd_path_by_wd head wd

unfoldable pub get_wd_subpath_by_wd : List WdNode → ℤ → Option Text
get_wd_subpath_by_wd [] wd = none
get_wd_subpath_by_wd (node ∷ head) wd =
    if eqb_ℤ node.wd wd then some node.subpath else get_wd_subpath_by_wd head wd

unfoldable pub get_wd_wd_by_path : List WdNode → Text → ℤ
get_wd_wd_by_path [] path = minus_one
get_wd_wd_by_path (node ∷ head) path =
    if text_eq node.path path then node.wd else get_wd_wd_by_path head path

-- del_monitor_dir: the list, and the watch that inotify_rm_watch is called for.
unfoldable pub del_monitor_dir : List WdNode → Text → List WdNode × Option ℤ
del_monitor_dir [] path = ([], none)
del_monitor_dir (node ∷ head) path =
    let rest = del_monitor_dir head path in
    if text_eq node.path path then (head, some node.wd) else (node ∷ rest.0, rest.1)

-- The loop of get_server_id_by_name from `i` on.
unfoldable pub server_id_from : List Server → Text → ℕ → ℤ
server_id_from [] name i = minus_one
server_id_from (s ∷ g_server) name i =
    let rest = server_id_from g_server name (suc i) in if text_eq s.name name then pos i else rest

unfoldable pub get_server_id_by_name : List Server → Text → ℤ
unfolding server_id_from
get_server_id_by_name g_server name = server_id_from g_server name 0

unfoldable pub get_server_by_name : List Server → Text → Option Server
get_server_by_name [] name = none
get_server_by_name (s ∷ g_server) name =
    if text_eq s.name name then some s else get_server_by_name g_server name
