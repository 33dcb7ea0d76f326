-- ===== src/Tests/Settings.antt =====
-- A configuration tree and the tables that are read from it (main.c, servers.c, monitor.c).
use mmdd_pro.Common.{ℕ, true, false, [], ◌∷◌, Option, none, some, Text, codes, pos, minus_one}
use mmdd_pro.Conf.Node.{ConfNode, Forest, end, child, new_fields, conf_node_new}
use mmdd_pro.Pipeline.State.{ServerGroup}
use mmdd_pro.Naming.{type_keep}
use mmdd_pro.Config.Servers.{ServerInfo}
use mmdd_pro.Config.Groups.{GroupInfo}
use mmdd_pro.Config.Globals.{Config}

abbrev pub leaf : Text → Text → Forest → Forest
leaf name val next = child name (record new_fields { has_parent = true; val = some val }) end next

abbrev pub node : Text → Option Text → Forest → Forest → Forest
node name val head next = child name (record new_fields { has_parent = true; val = val }) head next

abbrev pub server_node : Text → Forest → Forest
server_node name next =
    node (codes "0") (some name)
      (leaf (codes "analyzelib") (codes "l:f") (
        leaf (codes "addr") (codes "h") (
          leaf (codes "username") (codes "u") (
            leaf (codes "passwd") (codes "p") (
              leaf (codes "finish-flag") (codes "ok") (
                leaf (codes "file-suffix") (codes "c")
                  (leaf (codes "thread-num") (codes "4") end)))))))
      next

abbrev pub group_node : Text → Forest → Forest
group_node name next =
    node (codes "0") (some name)
      (leaf (codes "monitor-dir") (codes "/in") (
        leaf (codes "monitor-file-type") (codes "txt") (
          leaf (codes "upload-find-act") (codes "keep") (
            leaf (codes "upload-file-type") (codes "txt") (
              leaf (codes "finish-act") (codes "delete") (
                leaf (codes "move-to") [] (
                  leaf (codes "servers-primer") (codes "s0|s1")
                    (leaf (codes "servers-backup") (codes "s1|s0") end))))))))
      next

abbrev pub servers_node : Forest → Forest
servers_node next =
    node (codes "servers") none (server_node (codes "s0") (server_node (codes "s1") end)) next

abbrev pub groups_node : Forest → Forest
groups_node next = node (codes "monitor-group") none (group_node (codes "g0") end) next

abbrev pub db_node : Forest → Forest
db_node next =
    node (codes "DBServer") none
      (leaf (codes "DBHost") (codes "h") (
        leaf (codes "DBUser") (codes "u") (
          leaf (codes "DBPassWord") (codes "p") (
            leaf (codes "DBName") (codes "n")
              (leaf (codes "DBPort") (codes "3") (leaf (codes "DBSocket") (codes "s") end))))))
      next

abbrev pub root : ConfNode
root = record conf_node_new {
  head =
      node (codes "global-config") none (leaf (codes "log-dir-path") (codes "/log") end)
        (db_node (servers_node (groups_node end)));
}

abbrev pub server_row : Text → ServerInfo
server_row name = record {
  server = record {
    name = name;
    retry_count = pos 1;
    fail_sleep_time = pos 60;
    cur_rc = pos 0;
    cur_fst = minus_one;
    queue = [];
    in_hand = [];
  };
  analyze_lib_p = codes "l";
  analyze_lib_f = codes "f";
  addr = codes "h";
  username = codes "u";
  passwd = codes "p";
  finish_confirm = codes "ok";
  debug = false;
  file_suffix = codes "c";
  thread_num = pos 4;
}

abbrev pub group_entry : ℕ → Option ℕ → ServerGroup
group_entry prime back = record {
  rs_first = prime;
  rs_more = [];
  rs_back = back ∷ [];
  rr_queue_prime = 0;
  rr_queue_back = 0;
}

abbrev pub group_row : GroupInfo
group_row = record {
  group = record {
    name = codes "g0";
    finish_act = pos 3;
    move_to = [];
    server_group_list = group_entry 0 (some 1) ∷ group_entry 1 (some 0) ∷ [];
  };
  enable = true;
  monitor_dir = codes "/in";
  monitor_file_type = codes "txt";
  monitor_to_upload_act = type_keep;
  upload_file_type = codes "txt";
}

abbrev pub config : Config
config = record {
  global = record {
    affinity = minus_one;
    max_upload_num = pos 10000;
    connect_timeout = pos 30;
    log_dir_path = codes "/log";
    data_expiration_time = pos 0;
  };
  db = record {
    db_host = codes "h";
    db_user = codes "u";
    db_pass_word = codes "p";
    db_name = codes "n";
    db_port = 3;
    db_socket = codes "s";
  };
  g_server = server_row (codes "s0") ∷ server_row (codes "s1") ∷ [];
  g_monitorgroup = group_row ∷ [];
}
