-- ===== src/Program/Laws.antt =====
-- The whole program, from the configuration file to the end (main.c).
use mmdd_pro.Common.{
  ℕ, ◌≤◌, ◌<◌, ◌≡◌, sym, ap, subst, ◌∙◌, true, List, [], ◌∷◌, some, arith, Text, length, pos,
}
use mmdd_pro.Yaml.{enter, finish}
use mmdd_pro.Yaml.Document.{Pairs, load_pairs}
use mmdd_pro.Yaml.File.{file_events, conf_yaml_load_file}
use mmdd_pro.Conf.Node.{ConfNode}
use mmdd_pro.Config.{ok}
use mmdd_pro.Config.Globals.{Config, cfg_init, start_world}
use mmdd_pro.Config.Globals.Laws.{cfg_init-run}
use mmdd_pro.Pipeline.State.{World}
use mmdd_pro.Pipeline.Memory.{IsSound}
use mmdd_pro.Pipeline.Rounds.{Action, run}
use mmdd_pro.Pipeline.Shutdown.{then_do, monitor_group_exit, newiup_exit}
use mmdd_pro.Pipeline.Shutdown.Copies.{IsJoined, some_inj}
use mmdd_pro.Pipeline.Shutdown.Laws.{servers_exit_lem, free_groups-empty}
use mmdd_pro.Threads.{Threads, none_started, monitor_handle_pthread_start}
use mmdd_pro.Threads.Laws.{references}
use mmdd_pro.Threads.Joins.{monitor_handle_pthread_end-start}
use mmdd_pro.Program.{
  Host, returned, conf_init, root_of, thread_num_of, thread_set_cpu_affinity, exit_of,
  newiup_pthread_end, after_run, newiup_pthread_start, after_cfg_init, after_load, main,
}

-- The tree of a file with the mapping `m`.
abbrev pub tree_of : Pairs → ConfNode
tree_of m = root_of (finish (pos 0) (load_pairs m (enter conf_init)) [])

exit_empty :
    (v : World) (g : ℕ)
    → IsSound v
    → IsJoined v
    → g < length v.groups
    → (x : World) × (newiup_exit v ≡ some x) × (x.queues g ≡ [])
unfolding newiup_exit monitor_group_exit
exit_empty v g sound joined lt =
    let (u, exits, none_held, gone, size) = servers_exit_lem v sound joined in
    (
      monitor_group_exit u,
      ap (λ r. then_do r (λ y. some (monitor_group_exit y))) exits,
      free_groups-empty 0 (length u.groups) g u (omega arith) (omega (arith, size, lt)),
    )

module _ (host : Host) (as' : List Action) where
  threads_lem :
      (c : Config) (g : ℕ) {t : Threads} {v : World}
      → IsSound v
      → monitor_handle_pthread_start (thread_num_of c.g_server) c.g_monitorgroup none_started ≡ ok t
      → ((i : ℕ) → 1 ≤ thread_num_of c.g_server i → references i c.g_monitorgroup ≤ 1)
      → run as' (start_world c host.files) ≡ some v
      → IsJoined v
      → g < length v.groups
      → (x : World) × (newiup_pthread_start host c as'
            (monitor_handle_pthread_start (thread_num_of c.g_server) c.g_monitorgroup none_started)
          ≡ returned (pos 0) (some x))
        × (x.queues g ≡ [])
  unfolding newiup_pthread_start newiup_pthread_end
  threads_lem c g {t} {v} sound started once ran joined lt =
      let (t', ended, _, _, _) =
        monitor_handle_pthread_end-start (thread_num_of c.g_server) c.g_monitorgroup started once in
      let (x, left, empty) = exit_empty v g sound joined lt in
      (
        x,
        ap (newiup_pthread_start host c as') started
            ∙ ap (after_run (newiup_pthread_end c t)) ran
            ∙ rw (ended, newiup_pthread_end) (ap exit_of left),
        empty,
      )

  -- main is called with a file that begins with `%YAML 1.1` and holds one mapping, whose tree cfg_init
  -- accepts; the affinity can be set, a monitor group is enabled, and no server with threads is named
  -- twice by the enabled groups. Whatever the threads do, in any order and with any files there: if
  -- none of them has a copy in hand at the end, then main comes to no undefined behaviour, neither at
  -- a join nor at a counter that has been freed, it returns 0, and the queue of every monitor group is
  -- empty.
  pub main_lem :
      (program file : Text) (m : Pairs) (g : ℕ) {c : Config} {t : Threads} {v : World}
      → host.events file ≡ some (file_events (some (1, 1)) m)
      → cfg_init host.logging_init host.make_log_dir (tree_of m) ≡ ok c
      → thread_set_cpu_affinity host.set_affinity c.global.affinity ≡ true
      → monitor_handle_pthread_start (thread_num_of c.g_server) c.g_monitorgroup none_started ≡ ok t
      → ((i : ℕ) → 1 ≤ thread_num_of c.g_server i → references i c.g_monitorgroup ≤ 1)
      → run as' (start_world c host.files) ≡ some v
      → IsJoined v
      → g < length v.groups
      → (x : World) × (main host (program ∷ file ∷ []) as' ≡ returned (pos 0) (some x))
        × (x.queues g ≡ [])
  unfolding main after_load after_cfg_init finish
  main_lem program file m g {c} {t} {v} there read affinity started once ran joined lt =
      let (v', e, sound) =
        cfg_init-run host.logging_init host.make_log_dir (tree_of m) host.files as' read in
      let same : v' ≡ v = some_inj (sym e ∙ ran) in
      let (x, returns, empty) =
        threads_lem c g (subst IsSound same sound) started once ran joined lt in
      (
        x,
        rw (there, main)
            (ap (after_load host as') (conf_yaml_load_file m conf_init)
              ∙ ap (after_cfg_init host as') read
              ∙ rw (affinity, after_cfg_init) returns),
        empty,
      )
