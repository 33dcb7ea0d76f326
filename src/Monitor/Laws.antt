-- ===== src/Monitor/Laws.antt =====
-- What adding a file (add_upload_file and monitor_handle of monitor.c) does to the queue of the group.
use mmdd_pro.Common.{
  ℕ, inl, inr, [], Option, none, some, if◌then◌else◌, Text, length, ltb, Bool-cases,
}
use mmdd_pro.Naming.{is_monitor_type, add_file_suffix_process}
use mmdd_pro.Pipeline.State.{World}
use mmdd_pro.Pipeline.Schedule.{queue_node_add}
use mmdd_pro.Pipeline.Memory.{IsSound}
use mmdd_pro.Pipeline.Memory.Queues.{queue_node_add-Sound}
use mmdd_pro.Config.{Outcome, fault, ok}
use mmdd_pro.Config.Groups.{GroupInfo}
use mmdd_pro.Monitor.{Disk, add_file}
use mmdd_pro.Monitor.Keeps.{Holds, Keeps}

module _ (D : Disk) (gid : ℕ) (G : GroupInfo) where
  pub add_file-Holds : Keeps D gid G IsSound
  unfolding add_file
  add_file-Holds wd monitorfile w h =
      elim (Bool-cases (is_monitor_type monitorfile G.monitor_file_type)) [
        | inr other ↦ rw (other, add_file) h
        | inl typed ↦
            rw (typed, add_file)
              (named
                (add_file_suffix_process G.monitor_to_upload_act G.upload_file_type monitorfile []))
      ]
    where
      named :
          (r : Option Text)
          → Holds IsSound (
              some (elim r as (λ _. Outcome World) [
                | none ↦ fault
                | some dstfile ↦
                    if ltb (length dstfile) 1024
                    then ok (queue_node_add gid wd monitorfile dstfile w)
                    else fault
              ]))
      named none = tt
      named (some dstfile) = elim (Bool-cases (ltb (length dstfile) 1024)) [
        | inl fits ↦ rw fits (queue_node_add-Sound gid wd monitorfile dstfile w h)
        | inr over ↦ rw over tt
      ]
