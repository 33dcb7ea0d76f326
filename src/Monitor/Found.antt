-- ===== src/Monitor/Found.antt =====
-- Which files the monitor thread (monitor.c) puts into the queue of its group.
use mmdd_pro.Common.{
  ℕ, ◌<◌, ◌≤◌, ◌≡◌, refl, sym, subst, inl, inr, true, List, [], ◌∷◌, ◌++◌, Option, none, some,
  arith, if◌then◌else◌, Text, length, ltb, Bool-cases, All, ℤ,
}
use mmdd_pro.Naming.{is_monitor_type, add_file_suffix_process}
use mmdd_pro.Pipeline.State.{Item, World}
use mmdd_pro.Pipeline.Schedule.{set_queue, queue_node_add}
use mmdd_pro.Config.{Outcome, fault, ok}
use mmdd_pro.Config.Groups.{GroupInfo}
use mmdd_pro.Monitor.{Disk, Event, add_file, monitor_handle}
use mmdd_pro.Monitor.Depth.{Ends, IsShallow}
use mmdd_pro.Monitor.Ends.{monitor_handle-Ends}
use mmdd_pro.Monitor.Keeps.{Holds, OfWorld, Keeps, monitor_handle-Holds}

-- A node whose file is one of the group's type, and whose source is the name that the configured
-- action gives to it.
pub record IsFound (G : GroupInfo) (x : Item) : Type 0 where
  pub typed : is_monitor_type x.monitorfile G.monitor_file_type ≡ true
  pub renamed :
      add_file_suffix_process G.monitor_to_upload_act G.upload_file_type x.monitorfile []
      ≡ some x.src
  pub fits : length x.src < 1024

abbrev pub AllFound : ℕ → GroupInfo → World → Type 0
AllFound gid G w = All (IsFound G) (w.queues gid)

All-append :
    (G : GroupInfo) (q : List Item) (x : Item)
    → All (IsFound G) q
    → IsFound G x
    → All (IsFound G) (q ++ (x ∷ []))
All-append G [] x h k = (k, tt)
All-append G (y ∷ q) x h k = (h.0, All-append G q x h.1 k)

set_queue-own : (g : ℕ) (q : List Item) (queues : ℕ → List Item) → set_queue g q queues g ≡ q
set_queue-own g q queues = ground arith

queue_node_add-AllFound :
    (gid : ℕ) (G : GroupInfo) (wd : ℤ) (monitorfile dstfile : Text) (w : World)
    → is_monitor_type monitorfile G.monitor_file_type ≡ true
    → add_file_suffix_process G.monitor_to_upload_act G.upload_file_type monitorfile []
      ≡ some dstfile
    → length dstfile < 1024
    → AllFound gid G w
    → AllFound gid G (queue_node_add gid wd monitorfile dstfile w)
unfolding queue_node_add
queue_node_add-AllFound gid G wd monitorfile dstfile w typed renamed fits h =
    subst (All (IsFound G)) (sym (set_queue-own gid _ w.queues))
      (All-append G (w.queues gid) _ h (record { typed = typed; renamed = renamed; fits = fits }))

module _ (D : Disk) (gid : ℕ) (G : GroupInfo) where
  add_file-AllFound : Keeps D gid G (AllFound gid G)
  unfolding add_file
  add_file-AllFound wd monitorfile w h =
      elim (Bool-cases (is_monitor_type monitorfile G.monitor_file_type)) [
        | inr other ↦ rw (other, add_file) h
        | inl typed ↦
            rw (typed, add_file)
              (named typed
                (add_file_suffix_process G.monitor_to_upload_act G.upload_file_type monitorfile [])
                refl)
      ]
    where
      named :
          is_monitor_type monitorfile G.monitor_file_type ≡ true
          → (r : Option Text)
          → add_file_suffix_process G.monitor_to_upload_act G.upload_file_type monitorfile [] ≡ r
          → Holds (AllFound gid G) (
              some (elim r as (λ _. Outcome World) [
                | none ↦ fault
                | some dstfile ↦
                    if ltb (length dstfile) 1024
                    then ok (queue_node_add gid wd monitorfile dstfile w)
                    else fault
              ]))
      named typed none e = tt
      named typed (some dstfile) e = elim (Bool-cases (ltb (length dstfile) 1024)) [
        | inl fits ↦ rw fits (
            queue_node_add-AllFound gid G wd monitorfile dstfile w typed e (ground (arith, fits)) h)
        | inr over ↦ rw over tt
      ]

  -- On a disk whose directories have paths of fewer than 510 bytes and with fuel for 512 levels, the
  -- monitor thread comes to an end of any events. Where the queue of the group has only files of the
  -- group's type, each under the name that the configured action gives to it and that fits its
  -- buffer, it leaves only such files in that queue, unless it faults or leaves the program.
  pub monitor_handle-AllFound :
      (fuel : ℕ) (es : List Event) (w : World)
      → IsShallow D
      → 512 ≤ fuel
      → AllFound gid G w
      → Ends (monitor_handle D gid G fuel es w)
        × Holds (OfWorld (AllFound gid G)) (monitor_handle D gid G fuel es w)
  monitor_handle-AllFound fuel es w sh enough h = (
    monitor_handle-Ends D gid G fuel sh enough es w,
    monitor_handle-Holds D gid G fuel (AllFound gid G) add_file-AllFound es w h,
  )
