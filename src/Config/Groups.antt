-- ===== src/Config/Groups.antt =====
-- get_monitor_group_info and monitor_group_init of monitor.c: the table of monitor groups from the
-- configuration.
pub mod Valid
pub mod Accepted
use mmdd_pro.Common.{
  ℕ, zero, suc, ◌+◌, Bool, true, false, ◌&&◌, ◌||◌, not, List, [], ◌∷◌, Option, none, some,
  if◌then◌else◌, ◌==◌, Text, codes, text_eq, length, ℤ, pos, minus_one, eqb_ℤ,
}
use mmdd_pro.Conf.Node.{ConfNode, Fields, Forest, end, child}
use mmdd_pro.Conf.Lookup.{conf_get_child_value, child_number}
use mmdd_pro.Naming.{TypeProcess, type_keep, type_fail, get_type_process, get_end_process_id}
use mmdd_pro.Pipeline.State.{Server, MonitorGroup}
use mmdd_pro.Pipeline.Finish.{keep, delete}
use mmdd_pro.Config.{
  Outcome, fault, exits, fails, ok, ◌>>=◌, ◌>>◌, check, text, child_value, copy_into, copy_value,
  taken_name,
}
use mmdd_pro.Config.Servers.{children_of}
use mmdd_pro.Config.ServerGroups.{get_upload_group_server_group_list}

-- A monitor_group: the part that the scheduler uses, and the rest of its configuration.
pub record GroupInfo : Type 0 where
  pub group : MonitorGroup
  pub enable : Bool
  pub monitor_dir : Text
  pub monitor_file_type : Text
  pub monitor_to_upload_act : TypeProcess
  pub upload_file_type : Text

-- The value of `enable`: NEWIUP_OK is true.
unfoldable pub enable_of : Text → Outcome Bool
enable_of str =
    if text_eq str (codes "yes") || text_eq str (codes "y")
    then ok true
    else if text_eq str (codes "no") || text_eq str (codes "n")
    then ok false
    else fails

unfoldable pub enable_value : Forest → Outcome Bool
unfolding enable_of
enable_value head = elim (conf_get_child_value head (codes "enable")) [
  | none ↦ ok true
  | some v ↦ do str ← text v; enable_of str
]

unfoldable pub is_type_keep : TypeProcess → Bool
is_type_keep type_keep = true
is_type_keep _ = false

unfoldable pub is_type_fail : TypeProcess → Bool
is_type_fail type_fail = true
is_type_fail _ = false

-- The two tests behind `move-to`: a directory is needed unless the files are deleted or kept, and
-- not both actions are to keep.
unfoldable pub move_to_ok : ℤ → Text → Bool
move_to_ok finish_act str =
    not (not (eqb_ℤ finish_act delete) && not (eqb_ℤ finish_act keep) && length str == 0)

unfoldable pub not_both_kept : ℤ → TypeProcess → Bool
unfolding is_type_keep
not_both_kept finish_act act = not (eqb_ℤ finish_act keep && is_type_keep act)

-- One round of the loop of get_monitor_group_info, for a child with the value `val`. The second test of
-- `move-to` stands in front of the first use of the string: where it fails, the first does not look
-- at the string, and both return the same.
unfoldable pub group_info : ConfNode → List Server → Option Text → Forest → Outcome GroupInfo
unfolding enable_value is_type_fail not_both_kept move_to_ok
group_info root servers val head = do
  name ← taken_name root val
  enable ← enable_value head
  monitor_dir ← copy_value 1024 head (codes "monitor-dir")
  monitor_file_type ← copy_value 16 head (codes "monitor-file-type")
  act ← child_value head (codes "upload-find-act")
  check (not (is_type_fail (get_type_process act)))
  upload_file_type ← copy_value 16 head (codes "upload-file-type")
  finish ← child_value head (codes "finish-act")
  check (not (eqb_ℤ (get_end_process_id finish) minus_one))
  to ← child_value head (codes "move-to")
  check (not_both_kept (get_end_process_id finish) (get_type_process act))
  move_to ← text to
  check (move_to_ok (get_end_process_id finish) move_to)
  move_to ← copy_into 1024 move_to
  primer ← child_value head (codes "servers-primer")
  backup ← child_value head (codes "servers-backup")
  groups ← get_upload_group_server_group_list servers primer backup
  ok (record {
    group = record {
      name = name;
      finish_act = get_end_process_id finish;
      move_to = move_to;
      server_group_list = groups;
    };
    enable = enable;
    monitor_dir = monitor_dir;
    monitor_file_type = monitor_file_type;
    monitor_to_upload_act = get_type_process act;
    upload_file_type = upload_file_type;
  })

unfoldable pub group_infos : ConfNode → List Server → Forest → Outcome (List GroupInfo)
unfolding group_info
group_infos root servers end = ok []
group_infos root servers (child n f head next) = do
  info ← group_info root servers f.val head
  rest ← group_infos root servers next
  ok (info ∷ rest)

unfoldable pub get_monitor_group_info : ConfNode → List Server → Outcome (List GroupInfo)
unfolding group_infos
get_monitor_group_info root servers = do
  head ← children_of root (codes "monitor-group")
  group_infos root servers head

-- monitor_group_init; monitor_group_exit on the way out of an error frees the table.
unfoldable pub monitor_group_init : ConfNode → List Server → Outcome (List GroupInfo)
unfolding get_monitor_group_info
monitor_group_init root servers = do
  head ← children_of root (codes "monitor-group")
  check (not (child_number head == 0))
  get_monitor_group_info root servers
