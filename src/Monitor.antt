-- ===== src/Monitor.antt =====
-- The monitor thread of a group: add_monitor_dir of utils/encapsulate_queue.c, add_upload_file and
-- monitor_handle of monitor.c. The disk and inotify_add_watch are the record `Disk`; an event that
-- read(2) delivers is an `Event`.
pub mod Keeps
pub mod Laws
pub mod Found
pub mod Depth
pub mod Ends
pub mod Endless
pub mod Buffer
use mmdd_pro.Common.{
  ℕ, zero, suc, ◌+◌, Bool, true, false, not, ◌&&◌, ◌||◌, List, [], ◌∷◌, ◌++◌, Option, none, some,
  if◌then◌else◌, Text, length, take, drop, ltb, ℤ, pos, negsuc,
}
use mmdd_pro.Util.Paths.{first_is}
use mmdd_pro.Naming.{is_monitor_type, add_file_suffix_process}
use mmdd_pro.Watch.{WdNode, get_wd_by_wd, get_wd_path_by_wd, get_wd_wd_by_path, del_monitor_dir}
use mmdd_pro.Pipeline.State.{World}
use mmdd_pro.Pipeline.Schedule.{queue_node_add}
use mmdd_pro.Config.{Outcome, fault, exits, fails, ok}
use mmdd_pro.Config.Groups.{GroupInfo}

-- is_file and is_dir, the names that readdir gives (`none` if opendir fails), and the descriptor of
-- inotify_add_watch (`none` if it is negative).
pub record Disk : Type 0 where
  pub is_file : Text → Bool
  pub is_dir : Text → Bool
  pub entries : Text → Option (List Text)
  pub add_watch : Text → Option ℕ

-- snprintf(buffer, size, "%s/%s", path, name)
abbrev pub child_path : ℕ → Text → Text → Text
child_path size path name = take size (path ++ (b'/' ∷ name))

-- What is behind a step, unless that ran out of fuel (`none`), faulted or left the program.
abbrev pub and_then {ℓ κ} :
    {S : Type ℓ} {T : Type κ} → Option (Outcome S) → (S → Option (Outcome T)) → Option (Outcome T)
and_then none k = none
and_then (some fault) k = some fault
and_then (some exits) k = some exits
and_then (some fails) k = some fails
and_then (some (ok s)) k = k s

-- The loop over the names of a directory; those that begin with a dot are left out.
unfoldable pub each {ℓ} :
    {S : Type ℓ} → (Text → S → Option (Outcome S)) → List Text → S → Option (Outcome S)
each visit [] s = some (ok s)
each visit (name ∷ names) s =
    and_then (if first_is b'.' name then some (ok s) else visit name s) (each visit names)

-- Where the part of a path below the group's directory begins: as in the node above, or behind the
-- end of the path. There nothing has been written, and the text read here is empty.
abbrev pub suboffset_of : Option ℕ → Text → ℕ
suboffset_of none path = length path + 1
suboffset_of (some offset) path = offset

abbrev pub wd_node : ℕ → Option ℕ → Text → WdNode
wd_node wd above path = record {
  wd = pos wd;
  path = path;
  suboffset = suboffset_of above path;
  subpath = drop (suboffset_of above path) path;
}

module _ (D : Disk) where
  -- The round for a name: a subdirectory is added by `add`.
  unfoldable pub add_entry :
      (Text → List WdNode → Option (Outcome (List WdNode)))
      → Text
      → Text
      → List WdNode
      → Option (Outcome (List WdNode))
  add_entry add path name head =
      if D.is_dir (child_path 511 path name)
      then add (child_path 511 path name) head
      else some (ok head)

  -- strcpy into `path`, an array of WDQUEUE_PATH_LEN (512) bytes, and the loop behind it.
  unfoldable pub add_node :
      (Text → List WdNode → Option (Outcome (List WdNode)))
      → ℕ
      → Option ℕ
      → Text
      → List WdNode
      → Option (Outcome (List WdNode))
  unfolding add_entry each
  add_node add wd above path head =
      if ltb (length path) 512
      then elim (D.entries path) [
        | none ↦ some exits
        | some names ↦ each (add_entry add path) names (head ++ (wd_node wd above path ∷ []))
      ]
      else some fault

  -- add_monitor_dir; `above` is the suboffset of the node above, if there is one.
  unfoldable pub add_monitor_dir :
      ℕ → Option ℕ → Text → List WdNode → Option (Outcome (List WdNode))
  unfolding add_node
  add_monitor_dir zero above path head = none
  add_monitor_dir (suc fuel) above path head = elim (D.add_watch path) [
    | none ↦ some exits
    | some wd ↦
        add_node (λ sub head'. add_monitor_dir fuel (some (suboffset_of above path)) sub head') wd
          above path head
  ]

  module _ (gid : ℕ) (G : GroupInfo) where
    -- A file of the group's type goes into the queue under its new name, which is written into an
    -- array of NEWIUP_PATH_LEN (1024) bytes by its own length.
    unfoldable pub add_file : ℤ → Text → World → Outcome World
    add_file wd monitorfile w =
        if is_monitor_type monitorfile G.monitor_file_type
        then elim (add_file_suffix_process G.monitor_to_upload_act G.upload_file_type monitorfile
            []) [
              | none ↦ fault
              | some dstfile ↦
                  if ltb (length dstfile) 1024
                  then ok (queue_node_add gid wd monitorfile dstfile w)
                  else fault
            ]
        else ok w

    unfoldable pub upload_entry :
        (Text → World → Option (Outcome World)) → ℤ → Text → Text → World → Option (Outcome World)
    unfolding add_file
    upload_entry add wd path name w =
        if D.is_file (child_path 1023 path name)
        then some (add_file wd (child_path 1023 path name) w)
        else if D.is_dir (child_path 1023 path name)
        then add (child_path 1023 path name) w
        else some (ok w)

    unfoldable pub upload_entries :
        (Text → World → Option (Outcome World)) → ℤ → Text → World → Option (Outcome World)
    unfolding upload_entry each
    upload_entries add (negsuc n) path w = some exits
    upload_entries add (pos wd) path w = elim (D.entries path) [
      | none ↦ some exits
      | some names ↦ each (upload_entry add (pos wd) path) names w
    ]

    -- add_upload_file, with the list of watched directories.
    unfoldable pub add_upload_file : ℕ → List WdNode → Text → World → Option (Outcome World)
    unfolding upload_entries
    add_upload_file zero head path w = none
    add_upload_file (suc fuel) head path w =
        upload_entries (λ sub w'. add_upload_file fuel head sub w') (get_wd_wd_by_path head path)
          path w

-- struct inotify_event: the bits of its mask that monitor_handle tests; without a name its `len` is 0.
pub record Event : Type 0 where
  pub wd : ℤ
  pub created : Bool
  pub moved_to : Bool
  pub moved_from : Bool
  pub deleted : Bool
  pub delete_self : Bool
  pub isdir : Bool
  pub name : Option Text

abbrev pub Watcher : Type 0
Watcher = List WdNode × World

module _ (D : Disk) (gid : ℕ) (G : GroupInfo) (fuel : ℕ) where
  abbrev pub appears : Event → Bool
  appears e = e.created || e.moved_to

  abbrev pub vanishes : Event → Bool
  vanishes e = e.deleted || e.delete_self || e.moved_from

  -- A new directory: it is watched, and the files that are in it already are found.
  unfoldable pub enter_dir : Option ℕ → Text → Watcher → Option (Outcome Watcher)
  unfolding add_monitor_dir add_upload_file
  enter_dir above path (head, w) =
      and_then (add_monitor_dir D fuel above path head)
        λ head'. and_then (add_upload_file D gid G fuel head' path w) λ w'. some (ok (head', w'))

  unfoldable pub on_file : Event → Text → Watcher → Option (Outcome Watcher)
  unfolding add_file
  on_file e monitorfile (head, w) =
      and_then (some (add_file D gid G e.wd monitorfile w)) λ w'. some (ok (head, w'))

  unfoldable pub on_dir : Event → Text → Watcher → Option (Outcome Watcher)
  unfolding enter_dir del_monitor_dir
  on_dir e path (head, w) =
      if appears e
      then enter_dir
          (elim (get_wd_by_wd head e.wd) [ none ↦ none | some node ↦ some node.suboffset ]) path
          (head, w)
      else if vanishes e
      then some (ok ((del_monitor_dir head path).0, w))
      else some (ok (head, w))

  unfoldable pub on_name : Event → Text → Watcher → Option (Outcome Watcher)
  unfolding on_file on_dir
  on_name e monitorfile s =
      if D.is_file monitorfile && appears e
      then on_file e monitorfile s
      else if e.isdir
      then on_dir e monitorfile s
      else some (ok s)

  -- One event. A descriptor that is not in the list gives NULL for the "%s" of snprintf.
  unfoldable pub handle_event : Event → Watcher → Option (Outcome Watcher)
  unfolding on_name
  handle_event e s = elim e.name [
    | none ↦ some (ok s)
    | some name ↦ elim (get_wd_path_by_wd (s.0) e.wd) [
      | none ↦ some fault
      | some path ↦ on_name e (child_path 1023 path name) s
    ]
  ]

  -- The loop over the events of one read, without the test of the run signal between them.
  unfoldable pub handle_events : List Event → Watcher → Option (Outcome Watcher)
  unfolding handle_event
  handle_events [] s = some (ok s)
  handle_events (e ∷ es) s = and_then (handle_event e s) λ s'. handle_events es s'

  -- The beginning of monitor_handle.
  unfoldable pub monitor_start : World → Option (Outcome Watcher)
  unfolding enter_dir
  monitor_start w = enter_dir none G.monitor_dir ([], w)

  -- monitor_handle, with the events of all its reads.
  unfoldable pub monitor_handle : List Event → World → Option (Outcome Watcher)
  unfolding monitor_start handle_events
  monitor_handle es w = and_then (monitor_start w) λ s. handle_events es s
