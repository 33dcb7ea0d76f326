-- ===== src/Monitor/Ends.antt =====
-- That the monitor thread answers every list of events (monitor_handle of monitor.c), where no
-- directory's path fills its buffers.
use mmdd_pro.Common.{ℕ, ◌≤◌, ◌&&◌, List, [], ◌∷◌, Option, none, some, arith, Text}
use mmdd_pro.Watch.{get_wd_by_wd, get_wd_path_by_wd, del_monitor_dir}
use mmdd_pro.Pipeline.State.{World}
use mmdd_pro.Config.{Outcome, fault, ok}
use mmdd_pro.Config.Groups.{GroupInfo}
use mmdd_pro.Monitor.{
  Disk, child_path, add_monitor_dir, add_file, add_upload_file, Event, Watcher, appears, vanishes,
  enter_dir, on_file, on_dir, on_name, handle_event, handle_events, monitor_start, monitor_handle,
}
use mmdd_pro.Pipeline.Memory.{IsSound}
use mmdd_pro.Monitor.Laws.{add_file-Holds}
use mmdd_pro.Monitor.Keeps.{Holds, OfWorld, monitor_handle-Holds}
use mmdd_pro.Monitor.Depth.{
  Ends, and_then-Ends, if-Ends, IsShallow, add_monitor_dir-Ends, add_upload_file-Ends,
}

module _ (D : Disk) (gid : ℕ) (G : GroupInfo) (fuel : ℕ) (sh : IsShallow D)
    (enough : 512 ≤ fuel) where
  enter_dir-Ends :
      (above : Option ℕ) (path : Text) (s : Watcher) → Ends (enter_dir D gid G fuel above path s)
  unfolding enter_dir
  enter_dir-Ends above path (head, w) =
      and_then-Ends (add_monitor_dir D fuel above path head) _
        (add_monitor_dir-Ends D sh fuel above path head (omega (arith, enough))
          (omega (arith, enough)))
        λ head'.
          and_then-Ends (add_upload_file D gid G fuel head' path w) _
            (add_upload_file-Ends D sh gid G fuel head' path w (omega (arith, enough))
              (omega (arith, enough)))
            (λ w'. tt)

  on_name-Ends : (e : Event) (path : Text) (s : Watcher) → Ends (on_name D gid G fuel e path s)
  unfolding on_name on_file on_dir
  on_name-Ends e path (head, w) =
      if-Ends (D.is_file path && appears D gid G fuel e) _ _
        (λ f. and_then-Ends (some (add_file D gid G e.wd path w)) _ tt (λ w'. tt))
        (λ f.
          if-Ends e.isdir _ _
            (λ d.
              if-Ends (appears D gid G fuel e) _ _
                (λ a.
                  enter_dir-Ends
                    (elim (get_wd_by_wd head e.wd) [
                      | none ↦ none
                      | some node ↦ some node.suboffset
                    ])
                    path (head, w))
                (λ a.
                  if-Ends (vanishes D gid G fuel e) (some (ok ((del_monitor_dir head path).0, w))) _
                    (λ v. tt) (λ v. tt)))
            (λ d. tt))

  handle_event-Ends : (e : Event) (s : Watcher) → Ends (handle_event D gid G fuel e s)
  unfolding handle_event
  handle_event-Ends e s = by_name e.name
    where
      by_path :
          (name : Text) (r : Option Text)
          → Ends (elim r as (λ _. Option (Outcome Watcher)) [
            | none ↦ some fault
            | some path ↦ on_name D gid G fuel e (child_path 1023 path name) s
          ])
      by_path name none = tt
      by_path name (some path) = on_name-Ends e (child_path 1023 path name) s

      by_name :
          (r : Option Text)
          → Ends (elim r as (λ _. Option (Outcome Watcher)) [
            | none ↦ some (ok s)
            | some name ↦ elim (get_wd_path_by_wd (s.0) e.wd) [
              | none ↦ some fault
              | some path ↦ on_name D gid G fuel e (child_path 1023 path name) s
            ]
          ])
      by_name none = tt
      by_name (some name) = by_path name (get_wd_path_by_wd (s.0) e.wd)

  handle_events-Ends : (es : List Event) (s : Watcher) → Ends (handle_events D gid G fuel es s)
  unfolding handle_events
  handle_events-Ends [] s = tt
  handle_events-Ends (e ∷ es) s =
      and_then-Ends (handle_event D gid G fuel e s) _ (handle_event-Ends e s)
        (λ s'. handle_events-Ends es s')

  pub monitor_handle-Ends : (es : List Event) (w : World) → Ends (monitor_handle D gid G fuel es w)
  unfolding monitor_handle monitor_start
  monitor_handle-Ends es w =
      and_then-Ends (monitor_start D gid G fuel w) _ (enter_dir-Ends none G.monitor_dir ([], w))
        (λ s. handle_events-Ends es s)

  -- On a disk whose directories have paths of fewer than 510 bytes and with fuel for 512 levels, the
  -- monitor thread comes to an end of any events; and from a world in which the counter of every node
  -- is the number of its copies it leaves such a world, unless it faults or leaves the program.
  pub monitor_handle_lem :
      (es : List Event) (w : World)
      → IsSound w
      → Ends (monitor_handle D gid G fuel es w)
        × Holds (OfWorld IsSound) (monitor_handle D gid G fuel es w)
  monitor_handle_lem es w h = (
    monitor_handle-Ends es w,
    monitor_handle-Holds D gid G fuel IsSound (add_file-Holds D gid G) es w h,
  )
