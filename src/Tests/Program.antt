-- ===== src/Tests/Program.antt =====
-- The program (main.c) with a configuration file of one server and one monitor group, and a file that
-- is found and uploaded.
use mmdd_pro.Common.{
  ℕ, zero, suc, length, ◌<◌, ◌≤◌, ◌≡◌, refl, sym, true, false, List, [], ◌∷◌, Option, none, some,
  arith, Text, codes, text_eq, pos, if◌then◌else◌,
}
use mmdd_pro.Conf.Node.{ConfNode, Forest, end, child, new_fields, conf_node_new}
use mmdd_pro.Yaml.Document.{
  Pairs, no_pair, pair_scalar, pair_mapping, pair_sequence, no_item, item_mapping,
}
use mmdd_pro.Yaml.File.{file_events}
use mmdd_pro.Config.{Outcome, ok}
use mmdd_pro.Config.Globals.{Config, cfg_init, start_world}
use mmdd_pro.Pipeline.State.{Server, World, Env}
use mmdd_pro.Pipeline.Rounds.{Action, found, schedule, upload_begins, upload_ends, run}
use mmdd_pro.Pipeline.Shutdown.Copies.{IsJoined}
use mmdd_pro.Threads.{none_started, start_groups, monitor_handle_pthread_start}
use mmdd_pro.Threads.Laws.{references}
use mmdd_pro.Program.{Host, returned, thread_num_of, thread_set_cpu_affinity, main}
use mmdd_pro.Program.Laws.{tree_of, main_lem}
use mmdd_pro.Tests.Settings.{server_row, group_row, config}

abbrev entry : Text → Text → Pairs → Pairs
entry k v ps = pair_scalar k v ps

abbrev servers_part : Pairs → Pairs
servers_part rest =
    pair_sequence (codes "servers")
      (item_mapping
        (entry (codes "s0") [] (
          entry (codes "analyzelib") (codes "l:f") (
            entry (codes "addr") (codes "h") (
              entry (codes "username") (codes "u") (
                entry (codes "passwd") (codes "p") (
                  entry (codes "finish-flag") (codes "ok") (
                    entry (codes "file-suffix") (codes "c")
                      (entry (codes "thread-num") (codes "4") no_pair))))))))
        no_item)
      rest

abbrev groups_part : Pairs → Pairs
groups_part rest =
    pair_sequence (codes "monitor-group")
      (item_mapping
        (entry (codes "g0") [] (
          entry (codes "monitor-dir") (codes "/in") (
            entry (codes "monitor-file-type") (codes "txt") (
              entry (codes "upload-find-act") (codes "keep") (
                entry (codes "upload-file-type") (codes "txt") (
                  entry (codes "finish-act") (codes "delete") (
                    entry (codes "move-to") [] (
                      entry (codes "servers-primer") (codes "s0")
                        (entry (codes "servers-backup") [] no_pair)))))))))
        no_item)
      rest

abbrev document : Pairs
document = servers_part (
    groups_part (
      pair_mapping (codes "global-config") (entry (codes "log-dir-path") (codes "/log") no_pair) (
        pair_mapping (codes "DBServer")
          (entry (codes "DBHost") (codes "h") (
            entry (codes "DBUser") (codes "u") (
              entry (codes "DBPassWord") (codes "p") (
                entry (codes "DBName") (codes "n") (
                  entry (codes "DBPort") (codes "3")
                    (entry (codes "DBSocket") (codes "s") no_pair))))))
          no_pair)))

abbrev pub host : Host
host = record {
  events = λ file. some (file_events (some (1, 1)) document);
  logging_init = λ t. true;
  make_log_dir = λ t. true;
  set_affinity = λ cpu. true;
  files = λ path. text_eq path (codes "/in/f.txt");
}

abbrev pub loaded : Config
loaded = record config {
  g_server = server_row (codes "s0") ∷ [];
  g_monitorgroup =
      record group_row {
        group = record group_row.group {
          server_group_list =
              record {
                rs_first = 0;
                rs_more = [];
                rs_back = [];
                rr_queue_prime = 0;
                rr_queue_back = 0;
              }
              ∷ [];
        };
      }
      ∷ [];
}

abbrev leaf : Text → Text → Forest → Forest
leaf k v next = child k (record new_fields { val = some v }) end next

abbrev item : Text → Forest → Forest
item name head = child (codes "0") (record new_fields { is_seq = true; val = some name }) head end

abbrev server_forest : Forest
server_forest = leaf (codes "s0") [] (
    leaf (codes "analyzelib") (codes "l:f") (
      leaf (codes "addr") (codes "h") (
        leaf (codes "username") (codes "u") (
          leaf (codes "passwd") (codes "p") (
            leaf (codes "finish-flag") (codes "ok") (
              leaf (codes "file-suffix") (codes "c")
                (leaf (codes "thread-num") (codes "4") end)))))))

abbrev group_forest : Forest
group_forest = leaf (codes "g0") [] (
    leaf (codes "monitor-dir") (codes "/in") (
      leaf (codes "monitor-file-type") (codes "txt") (
        leaf (codes "upload-find-act") (codes "keep") (
          leaf (codes "upload-file-type") (codes "txt") (
            leaf (codes "finish-act") (codes "delete") (
              leaf (codes "move-to") [] (
                leaf (codes "servers-primer") (codes "s0")
                  (leaf (codes "servers-backup") [] end))))))))

abbrev db_forest : Forest
db_forest = leaf (codes "DBHost") (codes "h") (
    leaf (codes "DBUser") (codes "u") (
      leaf (codes "DBPassWord") (codes "p") (
        leaf (codes "DBName") (codes "n")
          (leaf (codes "DBPort") (codes "3") (leaf (codes "DBSocket") (codes "s") end)))))

abbrev tree : ConfNode
tree = record conf_node_new {
  head = child (codes "servers") new_fields (item (codes "s0") server_forest) (
      child (codes "monitor-group") new_fields (item (codes "g0") group_forest) (
        child (codes "global-config") new_fields (leaf (codes "log-dir-path") (codes "/log") end)
          (child (codes "DBServer") new_fields db_forest end)));
}

tree_of-document : tree_of document ≡ tree
unfolding mmdd_pro.Yaml.finish mmdd_pro.Yaml.enter mmdd_pro.Yaml.Document.load_pairs
    mmdd_pro.Yaml.key_step mmdd_pro.Yaml.val_step mmdd_pro.Yaml.mangle mmdd_pro.Yaml.deref
    mmdd_pro.Yaml.put_kid mmdd_pro.Yaml.kid_at mmdd_pro.Yaml.store mmdd_pro.Yaml.index_of
    mmdd_pro.Yaml.forest_size mmdd_pro.Yaml.parent_node mmdd_pro.Yaml.back mmdd_pro.Yaml.back_seq
    mmdd_pro.Yaml.seq_node mmdd_pro.Yaml.decimal mmdd_pro.Yaml.name_parent
    mmdd_pro.Conf.Node.insert_tail mmdd_pro.Common.text_eq
tree_of-document = refl

cfg_init-loaded : cfg_init host.logging_init host.make_log_dir tree ≡ ok loaded
unfolding cfg_init mmdd_pro.Config.Servers.get_server_info
    mmdd_pro.Config.ServerGroups.get_upload_group_server_group_list
    mmdd_pro.Util.Split.str_split_func mmdd_pro.Naming.get_end_process_id
    mmdd_pro.Naming.get_type_process mmdd_pro.Naming.switch_to_s
    mmdd_pro.Watch.get_server_id_by_name mmdd_pro.Common.starts_with
    mmdd_pro.Conf.Lookup.child_number mmdd_pro.Conf.Lookup.conf_get_node mmdd_pro.Conf.Lookup.tokens
    mmdd_pro.Conf.Lookup.walk mmdd_pro.Conf.Lookup.conf_get_child_value
    mmdd_pro.Conf.Node.conf_node_lookup_child mmdd_pro.Common.text_eq mmdd_pro.Config.taken_name
    mmdd_pro.Config.atoi mmdd_pro.Config.conf_node_name_check
    mmdd_pro.Config.ServerGroups.server_index
cfg_init-loaded = refl

-- The same of the file's tree.
cfg_init-document : cfg_init host.logging_init host.make_log_dir (tree_of document) ≡ ok loaded
cfg_init-document = rw tree_of-document cfg_init-loaded

abbrev pub env : Env
env = record {
  now = pos 1000;
  date = codes "20200101";
  dir_made = true;
  moved = true;
  past_test = false;
}

-- The file is found and scheduled, its upload succeeds, and the next round finishes it.
abbrev actions : List Action
actions =
    found 0 (pos 1) (codes "/in/f.txt") (codes "/in/f.txt")
    ∷ schedule env 0
    ∷ upload_begins env 0
    ∷ upload_ends env 0 0 (pos 0)
    ∷ schedule env 0
    ∷ []

abbrev or_start : Option World → World
or_start none = start_world loaded host.files
or_start (some w) = w

abbrev last : World
last = or_start (run actions (start_world loaded host.files))

run-actions : run actions (start_world loaded host.files) ≡ some last
unfolding run text_eq mmdd_pro.Pipeline.Flags.k_path mmdd_pro.Pipeline.Schedule.dispatch
    mmdd_pro.Pipeline.Flags.create_upload_state_file mmdd_pro.Pipeline.Flags.group_flag
    mmdd_pro.Pipeline.Flags.flag_path mmdd_pro.Pipeline.Server.upload_real_server_sche_rr
    mmdd_pro.Pipeline.Schedule.queue_node_free
run-actions = refl

in_hand-some : (s t : Server) → some s ≡ some t → s.in_hand ≡ t.in_hand
in_hand-some s t e = cc e

last-IsJoined : IsJoined last
unfolding run text_eq mmdd_pro.Pipeline.Flags.k_path mmdd_pro.Pipeline.Schedule.dispatch
    mmdd_pro.Pipeline.Flags.create_upload_state_file mmdd_pro.Pipeline.Flags.group_flag
    mmdd_pro.Pipeline.Flags.flag_path mmdd_pro.Pipeline.Server.upload_real_server_sche_rr
    mmdd_pro.Pipeline.Schedule.queue_node_free mmdd_pro.Pipeline.Finish.do_upload_file_finish_single
last-IsJoined zero s e = sym (in_hand-some _ s e)
last-IsJoined (suc j) s e = cc e

started :
    monitor_handle_pthread_start (thread_num_of loaded.g_server) loaded.g_monitorgroup none_started
    ≡ ok (start_groups (thread_num_of loaded.g_server) 0 loaded.g_monitorgroup none_started)
unfolding monitor_handle_pthread_start
started = refl

named_once : (i : ℕ) → 1 ≤ thread_num_of loaded.g_server i → references i loaded.g_monitorgroup ≤ 1
named_once i h = ground arith

affinity_no : thread_set_cpu_affinity host.set_affinity loaded.global.affinity ≡ true
unfolding thread_set_cpu_affinity
affinity_no = refl

last-groups : 0 < length last.groups
unfolding run text_eq mmdd_pro.Pipeline.Flags.k_path mmdd_pro.Pipeline.Schedule.dispatch
    mmdd_pro.Pipeline.Flags.create_upload_state_file mmdd_pro.Pipeline.Flags.group_flag
    mmdd_pro.Pipeline.Flags.flag_path mmdd_pro.Pipeline.Server.upload_real_server_sche_rr
    mmdd_pro.Pipeline.Schedule.queue_node_free mmdd_pro.Pipeline.Finish.do_upload_file_finish_single
last-groups = omega arith

main_lem_example :
    (x : World) × (main host (codes "newiup" ∷ codes "conf.yaml" ∷ []) actions
      ≡ returned (pos 0) (some x))
    × (x.queues 0 ≡ [])
main_lem_example =
    main_lem host actions (codes "newiup") (codes "conf.yaml") document 0 refl cfg_init-document
      affinity_no started named_once run-actions last-IsJoined last-groups
