-- ===== src/Tests/Threads.antt =====
-- The threads of a monitor group whose servers stand for each other, and of one without backup
-- servers (monitor.c, servers.c).
use mmdd_pro.Common.{ℕ, ◌≡◌, ◌≤◌, refl, arith, [], ◌∷◌, none, some, List, if◌then◌else◌, ltb, ◌&&◌}
use mmdd_pro.Config.{ok}
use mmdd_pro.Config.Groups.{GroupInfo}
use mmdd_pro.Threads.{
  Threads, none_started, start_groups, monitor_handle_pthread_start, monitor_handle_pthread_end,
}
use mmdd_pro.Threads.Laws.{references, enabled_at, monitor_handle_pthread_start_lem}
use mmdd_pro.Threads.Joins.{monitor_handle_pthread_end-start, monitor_handle_pthread_end_twice}
use mmdd_pro.Tests.Settings.{group_row, group_entry}

abbrev thread_num : ℕ → ℕ
thread_num i = 4

-- Servers 0 and 1, each the backup of the other.
abbrev crossed : List GroupInfo
crossed = group_row ∷ []

abbrev alone : List GroupInfo
alone =
    record group_row {
      group = record group_row.group {
        server_group_list = group_entry 0 none ∷ group_entry 1 none ∷ [];
      };
    }
    ∷ []

abbrev crossed_started : Threads
crossed_started = start_groups thread_num 0 crossed none_started

abbrev alone_started : Threads
alone_started = start_groups thread_num 0 alone none_started

crossed-ok : monitor_handle_pthread_start thread_num crossed none_started ≡ ok crossed_started
unfolding monitor_handle_pthread_start
crossed-ok = refl

alone-ok : monitor_handle_pthread_start thread_num alone none_started ≡ ok alone_started
unfolding monitor_handle_pthread_start
alone-ok = refl

monitor_handle_pthread_start_lem_example :
    ((i x : ℕ)
      → crossed_started.uploads i x
        ≡ (if ltb 0 (references i crossed) && ltb x (thread_num i) then 1 else 0))
    × ((g : ℕ) → crossed_started.monitors g ≡ enabled_at 0 crossed g)
    × ((g : ℕ) → crossed_started.sches g ≡ enabled_at 0 crossed g)
monitor_handle_pthread_start_lem_example =
    monitor_handle_pthread_start_lem thread_num crossed crossed-ok

alone-once : (i : ℕ) → 1 ≤ thread_num i → references i alone ≤ 1
alone-once i h = ground arith

monitor_handle_pthread_end-start_example :
    (t' : Threads) × (monitor_handle_pthread_end thread_num alone alone_started ≡ some t')
    × ((i x : ℕ) → t'.uploads i x ≡ 0)
    × ((g : ℕ) → t'.monitors g ≡ 0)
    × ((g : ℕ) → t'.sches g ≡ 0)
monitor_handle_pthread_end-start_example =
    monitor_handle_pthread_end-start thread_num alone alone-ok alone-once

monitor_handle_pthread_end_twice_example :
    monitor_handle_pthread_end thread_num crossed crossed_started ≡ none
monitor_handle_pthread_end_twice_example =
    monitor_handle_pthread_end_twice thread_num crossed 0 crossed-ok (omega arith) (omega arith)
