-- ===== src/Monitor/Buffer.antt =====
-- The loop of monitor_handle (monitor.c) over what read(2) puts into its buffer: struct inotify_event
-- of the Linux interface, on a little-endian machine. The tests of the run signal are a parameter.
pub mod Encoding
pub mod Laws
use mmdd_pro.Common.{
  ℕ, zero, suc, ◌+◌, ◌-◌, ◌*◌, ◌/◌, ◌%◌, ◌^◌, Bool, true, false, not, ◌&&◌, ◌||◌, List, [], ◌∷◌,
  ◌++◌, Option, none, some, if◌then◌else◌, ◌==◌, Text, length, take, drop, ltb, ℤ, pos, negsuc,
  signed32,
}
use mmdd_pro.Naming.{is_monitor_type}
use mmdd_pro.Watch.{get_wd_path_by_wd}
use mmdd_pro.Config.{Outcome, fault, exits, fails, ok}
use mmdd_pro.Config.Groups.{GroupInfo}
use mmdd_pro.Monitor.{Disk, Event, Watcher, child_path, and_then, appears, handle_event}

-- EVENT_SIZE
abbrev pub event_size : ℕ
event_size = 16

-- A 32-bit field from the offset `at` on.
unfoldable pub word_at : ℕ → List ℕ → ℕ
word_at at bytes = elim (drop at bytes) [
  | a ∷ r ↦ elim r [
    | b ∷ r' ↦ elim r' [
      | c ∷ r'' ↦ elim r'' [ d ∷ _ ↦ a + 256 * b + 65536 * c + 16777216 * d | [] ↦ 0 ]
      | [] ↦ 0
    ]
    | [] ↦ 0
  ]
  | [] ↦ 0
]

-- The string that begins with the bytes; `none`: there is no NUL.
unfoldable pub until_nul : List ℕ → Option Text
until_nul [] = none
until_nul (c ∷ rest) =
    if c == 0 then some [] else elim (until_nul rest) [ none ↦ none | some t ↦ some (c ∷ t) ]

abbrev pub bit : ℕ → ℕ → Bool
bit k mask = mask / 2 ^ k % 2 == 1

-- IN_MOVED_FROM, IN_MOVED_TO, IN_CREATE, IN_DELETE, IN_DELETE_SELF and IN_ISDIR.
abbrev pub event_with : ℕ → ℕ → Option Text → Event
event_with wd mask name = record {
  wd = signed32 wd;
  created = bit 8 mask;
  moved_to = bit 7 mask;
  moved_from = bit 6 mask;
  deleted = bit 9 mask;
  delete_self = bit 10 mask;
  isdir = bit 30 mask;
  name = name;
}

-- The event at the beginning of the bytes. `none`: its name has no end.
unfoldable pub event_of : List ℕ → Option Event
unfolding word_at until_nul
event_of bytes =
    if word_at 12 bytes == 0
    then some (event_with (word_at 0 bytes) (word_at 4 bytes) none)
    else elim (until_nul (drop event_size bytes)) [
      | none ↦ none
      | some name ↦ some (event_with (word_at 0 bytes) (word_at 4 bytes) (some name))
    ]

-- What one round of `while (get_monitor_run_signal() == NEWIUP_OK)` reads: nothing, since select or
-- read does not succeed, or bytes. `running` is the test, and `stopped k` that the test behind the
-- k-th event of the bytes fails.
pub record Round : Type 0 where
  pub running : Bool
  pub stopped : ℕ → Bool
  pub bytes : Option (List ℕ)

module _ (D : Disk) (gid : ℕ) (G : GroupInfo) (fuel : ℕ) where
  -- The second `continue`: a file that has appeared and is of another type.
  abbrev pub other_type : Event → Text → Watcher → Bool
  other_type e name (head, w) = elim (get_wd_path_by_wd head e.wd) [
    | none ↦ false
    | some path ↦
        let file = child_path 1023 path name in
        D.is_file file && appears D gid G fuel e && not (is_monitor_type file G.monitor_file_type)
  ]

  abbrev pub Next : Type 0
  Next = Watcher → Option (Outcome (Bool × Watcher))

  -- Behind an event that was handled in the state `s`: the two `continue`s, then the test of the run
  -- signal, with pthread_exit (`true`) if it fails, and the end of the loop's body. Each of the
  -- three that go on has advanced `offset` itself.
  abbrev pub after_event :
      (ℕ → Bool)
      → ℕ
      → Event
      → Watcher
      → Watcher
      → Next
      → Next
      → Next
      → Option (Outcome (Bool × Watcher))
  after_event stopped k e s s' no_name other next = elim e.name [
    | none ↦ no_name s'
    | some name ↦
        if other_type e name s
        then other s'
        else if stopped k
        then some (ok (true, s'))
        else next s'
  ]

  -- `while (offset < length)`, from the k-th event on; the bytes are those from `offset` on. `none`: the
  -- fuel has run out. `fault`: an event does not lie in the bytes.
  unfoldable pub handle_buffer : (ℕ → Bool) → ℕ → ℕ → List ℕ → Next
  unfolding event_of handle_event
  handle_buffer stopped zero k bytes s = none
  handle_buffer stopped (suc rounds) k bytes s =
      let no_name =
        handle_buffer stopped rounds (suc k) (drop (event_size + word_at 12 bytes) bytes) in
      let other =
        handle_buffer stopped rounds (suc k) (drop (event_size + word_at 12 bytes) bytes) in
      let next =
        handle_buffer stopped rounds (suc k) (drop (event_size + word_at 12 bytes) bytes) in
      let handled : Option (Outcome (Bool × Watcher)) = elim (event_of bytes) [
        | none ↦ some fault
        | some e ↦
            and_then (handle_event D gid G fuel e s)
              λ s'. after_event stopped k e s s' no_name other next
      ] in
      if length bytes == 0
      then some (ok (false, s))
      else if ltb (length bytes) (event_size + word_at 12 bytes)
      then some fault
      else handled

  -- The outer loop; every round may have as many events as `rounds`.
  unfoldable pub monitor_rounds : ℕ → List Round → Watcher → Option (Outcome Watcher)
  unfolding handle_buffer
  monitor_rounds rounds [] s = some (ok s)
  monitor_rounds rounds (r ∷ rs) s =
      let next = monitor_rounds rounds rs in
      let read : Option (Outcome Watcher) = elim r.bytes [
        | none ↦ next s
        | some bytes ↦
            and_then (handle_buffer r.stopped rounds 0 bytes s)
              λ (left, s'). if left then some (ok s') else next s'
      ] in
      if r.running then read else some (ok s)
