-- ===== src/Tests/Pipeline.antt =====
-- The pipeline of monitor.c, servers.c and utils/encapsulate_queue.c at concrete inputs.
use mmdd_pro.Common.{
  ℕ, zero, suc, ◌≡◌, refl, true, false, List, [], ◌∷◌, none, arith, All, Text, codes, pos,
  minus_one,
}
use mmdd_pro.Pipeline.State.{Server, ServerGroup, MonitorGroup, World, Env}
use mmdd_pro.Pipeline.Server.{is_available, upload_real_server_sche_rr}
use mmdd_pro.Pipeline.Server.Choice.{
  IsAwake, IsShortest, rs_of, upload_real_server_sche_rr-IsShortest,
}
use mmdd_pro.Pipeline.Rounds.{Action, found, schedule, upload_begins, upload_ends, run}
use mmdd_pro.Pipeline.Counting.{refs, all_refs, count_address, retained}
use mmdd_pro.Pipeline.Memory.{IsSound}
use mmdd_pro.Pipeline.Memory.Uploads.{GoesOn}
use mmdd_pro.Pipeline.Memory.Runs.{run-Sound}
use mmdd_pro.Pipeline.Flags.{group_flag, do_upload_state_file_check}
use mmdd_pro.Pipeline.Flags.Laws.{do_upload_state_file_check_iff}
use mmdd_pro.Pipeline.Rounds.{sche_round, upload_end}
use mmdd_pro.Pipeline.Rounds.Outcome.{sche_round-upload_end}
use mmdd_pro.Common.{◌↔◌}
use mmdd_pro.Pipeline.State.{Item, Copy, delete_file}
use mmdd_pro.Pipeline.Finish.{do_upload_file_finish_single}
use mmdd_pro.Pipeline.Schedule.{set_queue, release, queue_node_free}
use mmdd_pro.Pipeline.Rounds.{set_server}
use mmdd_pro.Common.{set}

abbrev pub server : Text → Server
server name = record {
  name = name;
  retry_count = pos 3;
  fail_sleep_time = pos 60;
  cur_rc = pos 0;
  cur_fst = pos 0;
  queue = [];
  in_hand = [];
}

abbrev server_group : ServerGroup
server_group = record {
  rs_first = 0;
  rs_more = 1 ∷ [];
  rs_back = none ∷ [];
  rr_queue_prime = 0;
  rr_queue_back = 0;
}

abbrev monitor_group : MonitorGroup
monitor_group = record {
  name = codes "logs";
  finish_act = pos 3;
  move_to = [];
  server_group_list = server_group ∷ [];
}

-- A world with one group, two servers and no file found yet; every file exists.
abbrev pub start : World
start = record {
  files = λ path. true;
  servers = server (codes "s0") ∷ server (codes "s1") ∷ [];
  groups = monitor_group ∷ [];
  queues = λ g. [];
  next_address = 0;
  max_upload_num = pos 0;
  upload_count = 0;
  monitor_run = true;
  upload_run = true;
}

abbrev pub env : Env
env = record {
  now = pos 1000;
  date = codes "20200101";
  dir_made = true;
  moved = true;
  past_test = false;
}

pub start-IsSound : IsSound start
unfolding refs all_refs count_address retained
start-IsSound = record {
  unique = λ g a. omega arith;
  fresh = λ g a h. refl;
  counted = λ g a. refl;
  owned = λ g. tt;
}

-- A file is found, handed out, popped, refused by the library once and uploaded at last, while
-- the scheduler runs in between.
abbrev actions : List Action
actions =
    found 0 (pos 1) (codes "/in/f") (codes "/in/f")
    ∷ schedule env 0
    ∷ upload_begins env 0
    ∷ schedule env 0
    ∷ upload_ends env 0 0 minus_one
    ∷ upload_begins env 0
    ∷ upload_ends env 0 0 (pos 0)
    ∷ schedule env 0
    ∷ []

run-Sound_example : GoesOn (run actions start)
run-Sound_example = run-Sound actions start start-IsSound

start-IsAwake : IsAwake (pos 1000) start.servers
unfolding is_available
start-IsAwake zero s e = ground arith
start-IsAwake (suc zero) s e = ground arith
start-IsAwake (suc (suc i)) s e = absurd (ground arith)

upload_real_server_sche_rr-IsShortest_example :
    IsShortest
      (pos 1000)
      (rs_of true server_group)
      start.servers
      (upload_real_server_sche_rr (pos 1000) true server_group start.servers).0
upload_real_server_sche_rr-IsShortest_example =
    upload_real_server_sche_rr-IsShortest (pos 1000) true server_group start.servers start-IsAwake

do_upload_state_file_check_iff_example :
    (do_upload_state_file_check start.servers
        (codes "logs")
        (codes "/f")
        (server_group ∷ [])
        start.files
      ≡ true)
    ↔ All
        (λ g. start.files (group_flag start.servers (codes "logs") (codes "/f") g) ≡ false)
        (server_group ∷ [])
do_upload_state_file_check_iff_example =
    do_upload_state_file_check_iff start.servers (codes "logs") (codes "/f") (server_group ∷ [])
      start.files

-- The node of a file, and its one copy in the hand of a thread.
abbrev node : ℕ → Item
node re_count = record {
  address = 0;
  monitor_id = 0;
  wd = pos 1;
  monitorfile = codes "/f";
  src = codes "/f";
  re_count = re_count;
}

abbrev copy : Copy
copy = record {
  orig = 0;
  monitor_id = 0;
  monitorfile = codes "/f";
  src = codes "/f";
  sg_name = codes "s0";
}

abbrev uploading : World
uploading = record start { queues = λ g. node 1 ∷ [] }

-- The world after its upload.
abbrev uploaded : World
uploaded = record uploading {
  files = do_upload_file_finish_single (codes "logs") copy (delete_file (codes "/f") start.files);
  servers = set start.servers 0 (record (server (codes "s0")) { cur_rc = pos 0 });
  queues = set_queue 0 (node 0 ∷ []) (λ g. node 1 ∷ []);
}

sche_round-upload_end_example : (sche_round env 0 uploaded).files ≡ uploaded.files
unfolding upload_end queue_node_free release set_server
sche_round-upload_end_example =
    sche_round-upload_end env env 0 (server (codes "s0")) copy uploading 0 (node 0) []
      {w' = uploaded} refl refl refl
