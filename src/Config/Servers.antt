-- ===== src/Config/Servers.antt =====
-- get_server_info and servers_init of servers.c: the table of servers from the configuration.
pub mod Accepted
use mmdd_pro.Common.{
  ℕ, zero, suc, ◌+◌, Bool, true, false, ◌&&◌, not, List, [], ◌∷◌, map, Option, none, some,
  if◌then◌else◌, ◌==◌, Text, codes, leb, leb_ℤ, ltb_ℤ, ℤ, pos, minus_one,
}
use mmdd_pro.Conf.Node.{ConfNode, Fields, Forest, end, child}
use mmdd_pro.Conf.Lookup.{Run, done, conf_get_node, conf_get_child_value, child_number}
use mmdd_pro.Pipeline.State.{Server}
use mmdd_pro.Config.{
  Outcome, fault, exits, fails, ok, ◌>>=◌, ◌>>◌, check, text, child_value, copy_into, copy_value,
  atoi, taken_name,
}

-- A real_server: the part that the threads use, and the rest of its configuration. `analyze` is cut
-- at its first colon into `analyze_lib_p` and `analyze_lib_f`.
pub record ServerInfo : Type 0 where
  pub server : Server
  pub analyze_lib_p : Text
  pub analyze_lib_f : Text
  pub addr : Text
  pub username : Text
  pub passwd : Text
  pub finish_confirm : Text
  pub debug : Bool
  pub file_suffix : Text
  pub thread_num : ℤ

-- strchr(analyze, ':') and the two halves.
unfoldable pub at_colon : Text → Option (Text × Text)
at_colon [] = none
at_colon (c ∷ t) = elim (c == b':') [
  | true ↦ some ([], t)
  | false ↦ elim (at_colon t) [ none ↦ none | some (p, f) ↦ some (c ∷ p, f) ]
]

unfoldable pub halves : Text → Outcome (Text × Text)
unfolding at_colon
halves t = elim (at_colon t) [ none ↦ fails | some h ↦ ok h ]

-- An integer that may be left out.
unfoldable pub number_or : ℤ → Forest → Text → Outcome ℤ
number_or default head name = elim (conf_get_child_value head name) [
  | none ↦ ok default
  | some v ↦ do t ← text v; atoi t
]

abbrev pub thread_num_ok : ℤ → Bool
thread_num_ok n = leb_ℤ (pos 1) n && leb_ℤ n (pos 15)

-- NEWIUP_UP_ERROR_CUR_WV_TIMES and NEWIUP_UP_ERROR_SKIP_TIME
abbrev pub default_attempts : ℤ
default_attempts = pos 1

abbrev pub default_fsleep_time : ℤ
default_fsleep_time = pos 60

-- One round of the loop of get_server_info, for a child with the value `val`.
unfoldable pub server_info : ConfNode → Option Text → Forest → Outcome ServerInfo
unfolding halves number_or
server_info root val head = do
  name ← taken_name root val
  analyze ← copy_value 1024 head (codes "analyzelib")
  parts ← halves analyze
  addr ← copy_value 24 head (codes "addr")
  username ← copy_value 32 head (codes "username")
  passwd ← copy_value 32 head (codes "passwd")
  finish_confirm ← copy_value 32 head (codes "finish-flag")
  file_suffix ← copy_value 32 head (codes "file-suffix")
  threads ← child_value head (codes "thread-num")
  digits ← text threads
  thread_num ← atoi digits
  check (thread_num_ok thread_num)
  retry_count ← number_or default_attempts head (codes "attempts")
  fail_sleep_time ← number_or default_fsleep_time head (codes "fsleep-time")
  ok (record {
    server = record {
      name = name;
      retry_count = retry_count;
      fail_sleep_time = fail_sleep_time;
      cur_rc = pos 0;
      cur_fst = minus_one;
      queue = [];
      in_hand = [];
    };
    analyze_lib_p = parts.0;
    analyze_lib_f = parts.1;
    addr = addr;
    username = username;
    passwd = passwd;
    finish_confirm = finish_confirm;
    debug = elim (conf_get_child_value head (codes "debug")) [ none ↦ false | some v ↦ true ];
    file_suffix = file_suffix;
    thread_num = thread_num;
  })

unfoldable pub server_infos : ConfNode → Forest → Outcome (List ServerInfo)
unfolding server_info
server_infos root end = ok []
server_infos root (child n f head next) = do
  info ← server_info root f.val head
  rest ← server_infos root next
  ok (info ∷ rest)

-- ConfGetNode of a name that is there; the callers use its children at once.
abbrev pub children_of : ConfNode → Text → Outcome Forest
children_of root name = elim (conf_get_node root name) [
  | done (some node) ↦ ok node.head
  | _ ↦ fault
]

unfoldable pub get_server_info : ConfNode → Outcome (List ServerInfo)
unfolding server_infos
get_server_info root = do head ← children_of root (codes "servers"); server_infos root head

-- servers_init; servers_exit on the way out of an error frees the table.
unfoldable pub servers_init : ConfNode → Outcome (List ServerInfo)
unfolding get_server_info
servers_init root = do
  head ← children_of root (codes "servers")
  check (not (child_number head == 0))
  get_server_info root
