-- ===== src/Tests/Buffer.antt =====
-- Two reads of the monitor thread (monitor.c): one that brings nothing, and one with the event of a
-- file that is moved into the directory and an event without a name.
use mmdd_pro.Common.{false, ◌++◌, ◌≡◌, refl, arith, List, [], ◌∷◌, map, Option, none, some, codes}
use mmdd_pro.Monitor.{and_then, monitor_start, monitor_handle}
use mmdd_pro.Monitor.Buffer.{event_of, event_with, Round, monitor_rounds}
use mmdd_pro.Monitor.Buffer.Encoding.{Written, IsWritten, encode_all}
use mmdd_pro.Monitor.Buffer.Laws.{round_of, events_of, monitor_rounds-encode}
use mmdd_pro.Tests.Pipeline.{start}
use mmdd_pro.Tests.Settings.{group_row}
use mmdd_pro.Tests.Monitor.{disk}

abbrev moved_in : Written
moved_in = record { wd = 1; mask = 128; cookie = 7; name = some (codes "f.txt"); pad = 2 }

abbrev nameless : Written
nameless = record { wd = 1; mask = 1024; cookie = 0; name = none; pad = 0 }

moved_in-IsWritten : IsWritten moved_in
moved_in-IsWritten = record {
  wd = omega arith;
  mask = omega arith;
  size = omega arith;
  text = (refl, (refl, (refl, (refl, (refl, tt)))));
}

nameless-IsWritten : IsWritten nameless
nameless-IsWritten = record { wd = omega arith; mask = omega arith; size = omega arith; text = tt }

abbrev reads : List (Option (List Written))
reads = none ∷ some (moved_in ∷ nameless ∷ []) ∷ []

event_of_runs :
    event_of (encode_all (moved_in ∷ [])) ≡ some (event_with 1 128 (some (codes "f.txt")))
unfolding event_of
event_of_runs = refl

-- At the third test of the run signal the thread is told to stop.
abbrev later : List Round
later =
    record { running = false; stopped = λ k. false; bytes = some (encode_all (moved_in ∷ [])) } ∷ []

monitor_rounds-encode_example :
    and_then
      (monitor_start disk 0 group_row 512 start)
      (monitor_rounds disk 0 group_row 512 3 (map (round_of disk 0 group_row 512) reads ++ later))
    ≡ monitor_handle disk 0 group_row 512 (events_of disk 0 group_row 512 reads) start
monitor_rounds-encode_example =
    monitor_rounds-encode disk 0 group_row 512 3 reads later start
      (tt, (((moved_in-IsWritten, (nameless-IsWritten, tt)), omega arith), tt)) refl
