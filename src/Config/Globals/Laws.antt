-- ===== src/Config/Globals/Laws.antt =====
-- What cfg_init (main.c) leaves for the threads, and a fault of getDBConfig.
use mmdd_pro.Common.{◌≡◌, refl, Bool, not, List, arith, Text, codes, length, All, ◌==◌}
use mmdd_pro.Conf.Node.{ConfNode}
use mmdd_pro.Conf.Lookup.{child_number}
use mmdd_pro.Pipeline.State.{Server, Files}
use mmdd_pro.Pipeline.Counting.{refs, count_address, retained}
use mmdd_pro.Pipeline.Rounds.{Action, run}
use mmdd_pro.Pipeline.Memory.{IsSound}
use mmdd_pro.Pipeline.Memory.Uploads.{GoesOn}
use mmdd_pro.Pipeline.Memory.Runs.{run-Sound}
use mmdd_pro.Config.{ok, check, Ensures, at_ok, Ensures-bind, ensured, ok-Ensures}
use mmdd_pro.Config.Servers.{ServerInfo, children_of, get_server_info, servers_init}
use mmdd_pro.Config.Servers.Accepted.{
  IsServerInfo, get_server_info-IsServerInfo, all_refs_of_accepted,
}
use mmdd_pro.Config.Groups.{get_monitor_group_info, monitor_group_init}
use mmdd_pro.Config.Groups.Accepted.{IsGroupInfo, get_monitor_group_info-IsGroupInfo}
use mmdd_pro.Config.Globals.{
  Config, global_cfg_init, get_db_config, table_of, cfg_init, start_world,
}

servers_init-IsServerInfo :
    (root : ConfNode) {infos : List ServerInfo}
    → servers_init root ≡ ok infos
    → All IsServerInfo infos
unfolding servers_init
servers_init-IsServerInfo root e =
    ensured
      (Ensures-bind (children_of root (codes "servers")) _
        λ head at. Ensures-bind (check (not (child_number head == 0))) _ λ u some_there. from_info)
      e
  where
    from_info : Ensures (All IsServerInfo) (get_server_info root)
    from_info = ok-Ensures (get_server_info root) (λ a h. get_server_info-IsServerInfo root h)

monitor_group_init-IsGroupInfo :
    (root : ConfNode) (ss : List Server)
    → Ensures (All (IsGroupInfo (length ss))) (monitor_group_init root ss)
unfolding monitor_group_init
monitor_group_init-IsGroupInfo root ss =
    Ensures-bind (children_of root (codes "monitor-group")) _ λ head at.
      Ensures-bind (check (not (child_number head == 0))) _ λ u some_there.
        ok-Ensures (get_monitor_group_info root ss)
          (λ a h. get_monitor_group_info-IsGroupInfo root ss h)

-- The tables that cfg_init leaves: the servers start with nothing to do, and every server group of
-- every monitor group names servers of the table.
pub record IsReady (c : Config) : Type 0 where
  pub servers : All IsServerInfo c.g_server
  pub groups : All (IsGroupInfo (length (table_of c.g_server))) c.g_monitorgroup

start_world-IsSound : (c : Config) (files : Files) → IsReady c → IsSound (start_world c files)
unfolding refs count_address retained
start_world-IsSound c files r = record {
  unique = λ g a. omega arith;
  fresh = λ g a h. refl;
  counted = λ g a. omega (arith, all_refs_of_accepted g a c.g_server r.servers);
  owned = λ g. tt;
}

module _ (logging_init make_log_dir : Text → Bool) (root : ConfNode) where
  cfg_init-Ensures : Ensures IsReady (cfg_init logging_init make_log_dir root)
  unfolding cfg_init
  cfg_init-Ensures = Ensures-bind (global_cfg_init logging_init make_log_dir root) _ λ global e0.
      Ensures-bind (get_db_config root) _ λ db e1. Ensures-bind (servers_init root) _ λ servers e2.
        Ensures-bind (monitor_group_init root (table_of servers)) _ λ groups e3. at_ok _ (record {
          servers = servers_init-IsServerInfo root e2;
          groups = ensured (monitor_group_init-IsGroupInfo root (table_of servers)) e3;
        })

  -- If cfg_init succeeds, then its tables are accepted ones: every server starts with nothing to do,
  -- and every monitor group names only servers that are there.
  pub cfg_init-IsReady : {c : Config} → cfg_init logging_init make_log_dir root ≡ ok c → IsReady c
  cfg_init-IsReady e = ensured cfg_init-Ensures e

  -- If cfg_init succeeds, then the threads that are started on its tables, with any files there,
  -- never use a counter that has been freed, in whatever order they take their steps, and the
  -- counter of every node stays the number of its copies.
  pub cfg_init-run :
      (files : Files) (as' : List Action) {c : Config}
      → cfg_init logging_init make_log_dir root ≡ ok c
      → GoesOn (run as' (start_world c files))
  cfg_init-run files as' {c} e =
      run-Sound as' (start_world c files) (start_world-IsSound c files (cfg_init-IsReady e))
