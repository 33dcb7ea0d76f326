-- ===== src/Config/Globals.antt =====
-- global_cfg_init, getDBConfig and cfg_init of main.c. logging_init (utils/logging.c) opens the log
-- and is a parameter, and so is the test is_dir with recursive_make_dir behind it.
pub mod Laws
use mmdd_pro.Common.{
  ℕ, zero, suc, Bool, true, false, ◌||◌, List, [], ◌∷◌, Option, none, some, map, if◌then◌else◌,
  Text, codes, text_eq, ℤ, pos, negsuc, ◌%◌, ◌^◌, ◌-◌, minus_one, pos_part, neg_part,
}
use mmdd_pro.Conf.Node.{ConfNode, Fields, Forest, end, child}
use mmdd_pro.Conf.Lookup.{conf_get_child_value}
use mmdd_pro.Naming.{switch_to_s}
use mmdd_pro.Pipeline.State.{Server, World, Files}
use mmdd_pro.Config.{Outcome, fault, exits, fails, ok, ◌>>=◌, ◌>>◌, check, text, copy_into, atoi}
use mmdd_pro.Config.Servers.{ServerInfo, children_of, servers_init}
use mmdd_pro.Config.Groups.{GroupInfo, monitor_group_init}

pub record GlobalConfig : Type 0 where
  pub affinity : ℤ
  pub max_upload_num : ℤ
  pub connect_timeout : ℤ
  pub log_dir_path : Text
  pub data_expiration_time : ℤ

-- global_config={-1,10000,30,{0}}
abbrev pub initial_config : GlobalConfig
initial_config = record {
  affinity = minus_one;
  max_upload_num = pos 10000;
  connect_timeout = pos 30;
  log_dir_path = [];
  data_expiration_time = pos 0;
}

-- ConfGetNodeValue of a child of the root's node: the name of a child is never NULL.
unfoldable pub conf_get_node_value : Text → Fields → Text → Option (Option Text)
conf_get_node_value n f name = if text_eq n name then some f.val else none

affinity_of : Text → Outcome ℤ
affinity_of str = if text_eq str (codes "no") then ok minus_one else atoi str

module _ (logging_init : Text → Bool) (make_log_dir : Text → Bool) where
  -- One round of the loop of global_cfg_init, for a child with name `n` and value `val`.
  unfoldable pub set_global : Text → Option Text → GlobalConfig → Outcome GlobalConfig
  unfolding affinity_of
  set_global n val c =
      if text_eq n (codes "affinity")
      then (do str ← text val; a ← affinity_of str; ok (record c { affinity = a }))
      else if text_eq n (codes "max-upload")
      then (do str ← text val; m ← atoi str; ok (record c { max_upload_num = m }))
      else if text_eq n (codes "log-dir-path")
      then (do
        str ← text val
        dir ← copy_into 1024 str
        check (logging_init str)
        ok (record c { log_dir_path = dir }))
      else if text_eq n (codes "data-expiration-time")
      then (do str ← text val; d ← atoi str; ok (record c { data_expiration_time = d }))
      else if text_eq n (codes "connect-timeout")
      then (do str ← text val; t ← atoi str; ok (record c { connect_timeout = t }))
      else exits

  unfoldable pub set_globals : Forest → GlobalConfig → Outcome GlobalConfig
  unfolding set_global
  set_globals end c = ok c
  set_globals (child n f head next) c = do c' ← set_global n f.val c; set_globals next c'

  unfoldable pub global_cfg_init : ConfNode → Outcome GlobalConfig
  unfolding set_globals
  global_cfg_init root = do
    head ← children_of root (codes "global-config")
    c ← set_globals head initial_config
    check (make_log_dir c.log_dir_path)
    ok c

pub record DbConfig : Type 0 where
  pub db_host : Text
  pub db_user : Text
  pub db_pass_word : Text
  pub db_name : Text
  pub db_port : ℕ
  pub db_socket : Text

-- ConfGetChildValue into `val`, which keeps its value if there is no such child.
unfoldable pub next_val : Forest → Text → Option Text → Option Text
next_val head name val = elim (conf_get_child_value head name) [ none ↦ val | some v ↦ v ]

abbrev pub needed : ℕ → Option Text → Outcome Text
needed size none = fails
needed size (some t) = copy_into size t

abbrev pub or_empty : Option Text → Text
or_empty none = []
or_empty (some t) = t

-- The conversion of an int to `unsigned int`.
unfoldable pub unsigned : ℤ → ℕ
unsigned (pos n) = n % 2 ^ 32
unsigned (negsuc n) = (2 ^ 32 - 1) - n

-- The port is 0 if there is no value, as memset leaves it.
unfoldable pub port_of : Option Text → Outcome ℕ
unfolding unsigned
port_of none = ok 0
port_of (some t) = do p ← atoi t; ok (unsigned p)

unfoldable pub socket_of : Option Text → Outcome Text
socket_of none = ok []
socket_of (some t) = copy_into 32 t

unfoldable pub get_db_config : ConfNode → Outcome DbConfig
unfolding next_val port_of socket_of switch_to_s
get_db_config root = do
  head ← children_of root (codes "DBServer")
  let host = next_val head (codes "DBHost") none
  db_host ← needed 32 host
  let user = next_val head (codes "DBUser") host
  db_user ← needed 32 user
  let pass_word = next_val head (codes "DBPassWord") user
  db_pass_word ← needed 32 pass_word
  let name = next_val head (codes "DBName") pass_word
  db_name ← needed 32 name
  let port = next_val head (codes "DBPort") name
  db_port ← port_of port
  let socket = next_val head (codes "DBSocket") port
  db_socket ← socket_of socket
  ok (record {
    db_host = db_host;
    db_user = or_empty (switch_to_s (some db_user));
    db_pass_word = db_pass_word;
    db_name = db_name;
    db_port = db_port;
    db_socket = db_socket;
  })

-- What cfg_init leaves in global_config, db_config, g_server and g_monitorgroup.
pub record Config : Type 0 where
  pub global : GlobalConfig
  pub db : DbConfig
  pub g_server : List ServerInfo
  pub g_monitorgroup : List GroupInfo

abbrev pub table_of : List ServerInfo → List Server
table_of infos = map (λ i. i.server) infos

unfoldable pub cfg_init : (Text → Bool) → (Text → Bool) → ConfNode → Outcome Config
unfolding global_cfg_init get_db_config servers_init monitor_group_init
cfg_init logging_init make_log_dir root = do
  global ← global_cfg_init logging_init make_log_dir root
  db ← get_db_config root
  servers ← servers_init root
  groups ← monitor_group_init root (table_of servers)
  ok (record { global = global; db = db; g_server = servers; g_monitorgroup = groups })

-- The state in which newiup_pthread_start finds the program, with the files that are there.
abbrev pub start_world : Config → Files → World
start_world c files = record {
  files = files;
  servers = table_of c.g_server;
  groups = map (λ i. i.group) c.g_monitorgroup;
  queues = λ g. [];
  next_address = 0;
  max_upload_num = c.global.max_upload_num;
  upload_count = 0;
  monitor_run = true;
  upload_run = true;
}
