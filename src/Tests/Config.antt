-- ===== src/Tests/Config.antt =====
-- The reading of the configuration (main.c, servers.c, monitor.c) at concrete inputs.
use mmdd_pro.Common.{
  ℕ, zero, suc, ◌+◌, ◌≤◌, ◌≡◌, refl, Bool, true, false, List, [], ◌∷◌, ◌++◌, map, Option, none,
  some, All, Text, codes, ℤ, pos, minus_one, length,
}
use mmdd_pro.Conf.Node.{ConfNode, Fields, Forest, end, child, new_fields, conf_node_new}
use mmdd_pro.Pipeline.State.{Server, ServerGroup}
use mmdd_pro.Naming.{type_keep, type_replace}
use mmdd_pro.Config.{Outcome, ok}
use mmdd_pro.Config.Servers.{ServerInfo, get_server_info}
use mmdd_pro.Config.Groups.{get_monitor_group_info}
use mmdd_pro.Config.ServerGroups.{get_upload_group_server_group_list}
use mmdd_pro.Config.Groups.Valid.{IsServed, get_upload_group_server_group_list_lem}
use mmdd_pro.Config.Groups.Accepted.{IsGroupInfo, get_monitor_group_info-IsGroupInfo}
use mmdd_pro.Config.Names.{count_text, get_monitor_group_info-names}
use mmdd_pro.Pipeline.Rounds.{Action, found, schedule, upload_begins, upload_ends}
use mmdd_pro.Pipeline.State.{Env}
use mmdd_pro.Util.Split.{str_split_func}
use mmdd_pro.Conf.Lookup.{conf_get_child_value}
use mmdd_pro.Naming.{switch_to_s}
use mmdd_pro.Config.Globals.{DbConfig, cfg_init}
use mmdd_pro.Tests.Settings.{leaf, node, root, server_row, group_entry, group_row, config}

cfg_init_there : cfg_init (λ t. true) (λ t. true) root ≡ ok config
unfolding cfg_init mmdd_pro.Config.Servers.get_server_info
    mmdd_pro.Config.ServerGroups.get_upload_group_server_group_list
    mmdd_pro.Util.Split.str_split_func mmdd_pro.Naming.get_end_process_id
    mmdd_pro.Naming.get_type_process mmdd_pro.Naming.switch_to_s
    mmdd_pro.Watch.get_server_id_by_name mmdd_pro.Common.starts_with
    mmdd_pro.Conf.Lookup.child_number mmdd_pro.Conf.Lookup.conf_get_node mmdd_pro.Conf.Lookup.tokens
    mmdd_pro.Conf.Lookup.walk mmdd_pro.Conf.Lookup.conf_get_child_value
    mmdd_pro.Conf.Node.conf_node_lookup_child mmdd_pro.Common.text_eq mmdd_pro.Config.taken_name
    mmdd_pro.Config.atoi mmdd_pro.Config.conf_node_name_check
    mmdd_pro.Config.ServerGroups.server_index
cfg_init_there = refl

abbrev env : Env
env = record {
  now = pos 1000;
  date = codes "20200101";
  dir_made = true;
  moved = true;
  past_test = false;
}

abbrev actions : List Action
actions =
    found 0 (pos 1) (codes "/in/f.txt") (codes "/in/f.txt")
    ∷ schedule env 0
    ∷ upload_begins env 0
    ∷ upload_ends env 0 0 (pos 0)
    ∷ schedule env 0
    ∷ []

abbrev servers : List ServerInfo
servers = server_row (codes "s0") ∷ server_row (codes "s1") ∷ []

servers_there : get_server_info root ≡ ok servers
unfolding get_server_info mmdd_pro.Conf.Lookup.conf_get_node mmdd_pro.Conf.Lookup.tokens
    mmdd_pro.Conf.Lookup.walk mmdd_pro.Conf.Lookup.conf_get_child_value
    mmdd_pro.Conf.Node.conf_node_lookup_child mmdd_pro.Common.text_eq mmdd_pro.Config.taken_name
    mmdd_pro.Config.atoi mmdd_pro.Config.conf_node_name_check
servers_there = refl

abbrev table : List Server
table = map (λ i. i.server) servers

groups_there : get_monitor_group_info root table ≡ ok (group_row ∷ [])
unfolding get_monitor_group_info get_upload_group_server_group_list
    mmdd_pro.Util.Split.str_split_func mmdd_pro.Config.ServerGroups.server_index
    mmdd_pro.Watch.get_server_id_by_name mmdd_pro.Conf.Lookup.conf_get_node
    mmdd_pro.Conf.Lookup.tokens mmdd_pro.Conf.Lookup.walk mmdd_pro.Conf.Lookup.conf_get_child_value
    mmdd_pro.Conf.Node.conf_node_lookup_child mmdd_pro.Common.text_eq mmdd_pro.Config.taken_name
    mmdd_pro.Config.conf_node_name_check mmdd_pro.Naming.get_end_process_id
    mmdd_pro.Naming.get_type_process mmdd_pro.Common.starts_with
groups_there = refl

get_monitor_group_info-IsGroupInfo_example : All (IsGroupInfo 2) (group_row ∷ [])
get_monitor_group_info-IsGroupInfo_example =
    get_monitor_group_info-IsGroupInfo root table groups_there

get_monitor_group_info-names_example :
    count_text (codes "g0") (map (λ i. i.group.name) (group_row ∷ [])) ≤ 1
get_monitor_group_info-names_example =
    get_monitor_group_info-names root table groups_there (codes "g0")

abbrev groups : List ServerGroup
groups = group_entry 0 (some 1) ∷ group_entry 1 (some 0) ∷ []

lists_there :
    get_upload_group_server_group_list table (some (codes "s0|s1")) (some (codes "s1|s0"))
    ≡ ok groups
unfolding get_upload_group_server_group_list mmdd_pro.Util.Split.str_split_func
    mmdd_pro.Config.ServerGroups.server_index mmdd_pro.Watch.get_server_id_by_name
    mmdd_pro.Common.text_eq mmdd_pro.Util.Paths.first_is
lists_there = refl

get_upload_group_server_group_list_lem_example :
    (t : Text) × (some (codes "s0|s1") ≡ some t)
    × All (IsServed 2) groups
    × (2 ≡ length (str_split_func t b'|').str_array)
get_upload_group_server_group_list_lem_example =
    get_upload_group_server_group_list_lem table (some (codes "s0|s1")) (some (codes "s1|s0"))
      lists_there

-- A tree with a host, a password and a name, and without a user.
abbrev no_user : Forest
no_user =
    leaf (codes "DBHost") (codes "h")
      (leaf (codes "DBPassWord") (codes "p") (leaf (codes "DBName") (codes "n") end))

abbrev no_user_root : ConfNode
no_user_root = record conf_node_new { head = node (codes "DBServer") none no_user end }

abbrev no_user_db : DbConfig
no_user_db = record {
  db_host = codes "h";
  db_user = codes "h";
  db_pass_word = codes "p";
  db_name = codes "n";
  db_port = 0;
  db_socket = codes "n";
}
