-- ===== src/Tests/Monitor.antt =====
-- The monitor thread (monitor.c) at concrete inputs.
use mmdd_pro.Pipeline.Memory.{IsSound}
use mmdd_pro.Common.{
  ℕ, zero, suc, ◌<◌, ◌≡◌, refl, sym, subst, arith, true, false, List, [], ◌∷◌, none, some, Text,
  codes, text_eq, text_eq_iff, pos, length,
}
use mmdd_pro.Monitor.{Disk, Event, add_monitor_dir, monitor_handle}
use mmdd_pro.Monitor.Keeps.{Holds, OfWorld}
use mmdd_pro.Monitor.Depth.{Ends, IsShallow}
use mmdd_pro.Monitor.Found.{AllFound, monitor_handle-AllFound}
use mmdd_pro.Monitor.Ends.{monitor_handle_lem}
use mmdd_pro.Monitor.Endless.{add_monitor_dir-endless}
use mmdd_pro.Tests.Pipeline.{start, start-IsSound}
use mmdd_pro.Tests.Settings.{group_row}

-- One directory with two files, one of them hidden.
abbrev pub disk : Disk
disk = record {
  is_file = λ path. text_eq path (codes "/in/f.txt");
  is_dir = λ path. text_eq path (codes "/in");
  entries = λ path. some (codes "f.txt" ∷ codes ".g" ∷ []);
  add_watch = λ path. some 1;
}

disk-IsShallow : IsShallow disk
disk-IsShallow = record {
  room = λ path e.
      subst (λ p. length p < 510) (sym ((text_eq_iff path (codes "/in")).0 e)) (omega arith);
}

-- A file is moved into the directory.
abbrev events : List Event
events =
    record {
      wd = pos 1;
      created = false;
      moved_to = true;
      moved_from = false;
      deleted = false;
      delete_self = false;
      isdir = false;
      name = some (codes "f.txt");
    }
    ∷ []

monitor_handle_lem_example :
    Ends (monitor_handle disk 0 group_row 512 events start)
    × Holds (OfWorld IsSound) (monitor_handle disk 0 group_row 512 events start)
monitor_handle_lem_example =
    monitor_handle_lem disk 0 group_row 512 disk-IsShallow (omega arith) events start start-IsSound

abbrev letters : ℕ → Text
letters zero = []
letters (suc n) = b'a' ∷ letters n

-- Every path is a directory with one name.
abbrev deep : Disk
deep = record {
  is_file = λ path. false;
  is_dir = λ path. true;
  entries = λ path. some (codes "b" ∷ []);
  add_watch = λ path. some 1;
}

add_monitor_dir-endless_example : add_monitor_dir deep 1000 none (letters 511) [] ≡ none
unfolding mmdd_pro.Util.Paths.first_is
add_monitor_dir-endless_example =
    add_monitor_dir-endless deep (letters 511) (codes "b") [] 1 refl refl refl refl refl 1000 none
      []

monitor_handle-AllFound_example :
    Ends (monitor_handle disk 0 group_row 512 events start)
    × Holds (OfWorld (AllFound 0 group_row)) (monitor_handle disk 0 group_row 512 events start)
monitor_handle-AllFound_example =
    monitor_handle-AllFound disk 0 group_row 512 events start disk-IsShallow (omega arith) tt
