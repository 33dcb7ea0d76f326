-- ===== src/Program.antt =====
-- main of main.c, with ConfYamlLoadFile (utils/conf-yaml-loader.c) and ThreadSetCPUAffinity (main.c):
-- the configuration is read, the threads are started and joined, and the tables are freed. What the
-- threads do between their start and their end is a sequence of actions.
pub mod Laws
use mmdd_pro.Common.{
  ℕ, Bool, true, false, List, [], ◌∷◌, Option, none, some, if◌then◌else◌, Text, get_elem?, ℤ, pos,
  minus_one, eqb_ℤ, pos_part,
}
use mmdd_pro.Conf.Node.{ConfNode, conf_node_new}
use mmdd_pro.Yaml.{Event, Parsed, conf_yaml_load}
use mmdd_pro.Config.{Outcome, fault, exits, fails, ok}
use mmdd_pro.Config.Servers.{ServerInfo}
use mmdd_pro.Config.Globals.{Config, cfg_init, start_world}
use mmdd_pro.Pipeline.State.{Files, World}
use mmdd_pro.Pipeline.Rounds.{Action, run}
use mmdd_pro.Pipeline.Shutdown.{newiup_exit}
use mmdd_pro.Threads.{
  Threads, none_started, monitor_handle_pthread_start, monitor_handle_pthread_end,
}

-- The events that the parser reads from a file (`none` if it cannot be opened), whether logging_init
-- succeeds, whether the log directory is there or can be made, whether pthread_setaffinity_np
-- succeeds, and the files at the start.
pub record Host : Type 0 where
  pub events : Text → Option (List Event)
  pub logging_init : Text → Bool
  pub make_log_dir : Text → Bool
  pub set_affinity : ℤ → Bool
  pub files : Files

-- `unfinished`: the model's fuel has run out. `faulted`: undefined behaviour. `exited`: exit is called.
-- `returned`: main returns, with the world at the end if the threads have been started.
pub data Ended : Type 0 where
  unfinished faulted exited : Ended
  returned : ℤ → Option World → Ended

-- ConfInit
abbrev pub conf_init : ConfNode
conf_init = conf_node_new

abbrev pub root_of : Parsed → ConfNode
root_of p = record conf_init { fields = p.parent; head = p.head }

-- The `thread_num` of the servers.
abbrev pub thread_num_of : List ServerInfo → ℕ → ℕ
thread_num_of infos i = elim (get_elem? infos i) [ none ↦ 0 | some s ↦ pos_part s.thread_num ]

unfoldable pub thread_set_cpu_affinity : (ℤ → Bool) → ℤ → Bool
thread_set_cpu_affinity set_affinity cpuid =
    if eqb_ℤ cpuid minus_one then true else set_affinity cpuid

abbrev pub exit_of : Option World → Ended
exit_of none = faulted
exit_of (some w) = returned (pos 0) (some w)

-- newiup_pthread_end and newiup_exit, in the world `v` that the threads have left.
unfoldable pub newiup_pthread_end : Config → Threads → World → Ended
unfolding monitor_handle_pthread_end newiup_exit
newiup_pthread_end c t v =
    elim (monitor_handle_pthread_end (thread_num_of c.g_server) c.g_monitorgroup t) [
      | none ↦ faulted
      | some _ ↦ exit_of (newiup_exit v)
    ]

abbrev pub after_run : (World → Ended) → Option World → Ended
after_run k none = faulted
after_run k (some v) = k v

-- newiup_pthread_start, and what the threads do.
unfoldable pub newiup_pthread_start : Host → Config → List Action → Outcome Threads → Ended
unfolding newiup_pthread_end run
newiup_pthread_start host c as' fault = faulted
newiup_pthread_start host c as' exits = exited
newiup_pthread_start host c as' fails = faulted
newiup_pthread_start host c as' (ok t) =
    after_run (newiup_pthread_end c t) (run as' (start_world c host.files))

-- Behind cfg_init. At `init_fail` the queues are empty, and newiup_exit only frees the tables.
unfoldable pub after_cfg_init : Host → List Action → Outcome Config → Ended
unfolding newiup_pthread_start thread_set_cpu_affinity monitor_handle_pthread_start
after_cfg_init host as' fault = faulted
after_cfg_init host as' exits = exited
after_cfg_init host as' fails = returned (pos 0) none
after_cfg_init host as' (ok c) =
    if thread_set_cpu_affinity host.set_affinity c.global.affinity
    then newiup_pthread_start host c as'
        (monitor_handle_pthread_start (thread_num_of c.g_server) c.g_monitorgroup none_started)
    else returned (pos 0) none

-- Behind ConfYamlLoadFile.
unfoldable pub after_load : Host → List Action → Option Parsed → Ended
unfolding after_cfg_init cfg_init
after_load host as' none = unfinished
after_load host as' (some p) =
    if eqb_ℤ p.ret (pos 0)
    then after_cfg_init host as' (cfg_init host.logging_init host.make_log_dir (root_of p))
    else returned minus_one none

-- The start of main; ConfYamlLoadFile returns -1 for a file that cannot be opened.
unfoldable pub main : Host → List Text → List Action → Ended
unfolding after_load
main host [] as' = exited
main host (program ∷ []) as' = exited
main host (program ∷ file ∷ []) as' = elim (host.events file) [
  | none ↦ returned minus_one none
  | some es ↦ after_load host as' (conf_yaml_load es conf_init)
]
main host (program ∷ file ∷ more ∷ rest) as' = exited
