-- ===== src/Tests/Starts.antt =====
-- A round of the scheduler (monitor.c) for a file that has just been found.
use mmdd_pro.Common.{ℕ, [], ◌∷◌, none, some, arith, codes, pos}
use mmdd_pro.Pipeline.State.{Item, MonitorGroup, World}
use mmdd_pro.Pipeline.Schedule.{set_queue}
use mmdd_pro.Pipeline.Rounds.Starts.{Starts}
use mmdd_pro.Config.Globals.{start_world}
use mmdd_pro.Tests.Program.{host, loaded}
use mmdd_pro.Tests.Settings.{group_row}

abbrev pub item : Item
item = record {
  address = 0;
  monitor_id = 0;
  wd = pos 1;
  monitorfile = codes "/in/f.txt";
  src = codes "/in/f.txt";
  re_count = 0;
}

abbrev pub only_group : MonitorGroup
only_group = record group_row.group {
  server_group_list =
      record { rs_first = 0; rs_more = []; rs_back = []; rr_queue_prime = 0; rr_queue_back = 0 }
      ∷ [];
}

abbrev waiting : World
waiting = record (start_world loaded host.files) {
  queues = set_queue 0 (item ∷ []) (λ g. []);
  next_address = 1;
}
