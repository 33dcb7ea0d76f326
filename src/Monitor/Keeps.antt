-- ===== src/Monitor/Keeps.antt =====
-- What the monitor thread (monitor.c) keeps true of the world: what adding a file to a queue keeps.
use mmdd_pro.Common.{
  ℕ, zero, suc, Bool, true, false, ◌&&◌, List, [], ◌∷◌, Option, none, some, if◌then◌else◌, Text, ℤ,
  pos, negsuc,
}
use mmdd_pro.Util.Paths.{first_is}
use mmdd_pro.Watch.{WdNode, get_wd_by_wd, get_wd_path_by_wd, get_wd_wd_by_path, del_monitor_dir}
use mmdd_pro.Pipeline.State.{World}
use mmdd_pro.Config.{Outcome, fault, exits, fails, ok}
use mmdd_pro.Config.Groups.{GroupInfo}
use mmdd_pro.Monitor.{
  Disk, child_path, and_then, each, add_monitor_dir, add_file, upload_entry, upload_entries,
  add_upload_file, Event, Watcher, appears, vanishes, enter_dir, on_file, on_dir, on_name,
  handle_event, handle_events, monitor_start, monitor_handle,
}

-- A property of the state, where there is one.
abbrev pub Holds {ℓ} : {S : Type ℓ} → (S → Type 0) → Option (Outcome S) → Type 0
Holds P (some (ok s)) = P s
Holds P _ = Unit

pub and_then-Holds {ℓ κ} :
    {S : Type ℓ} {T : Type κ} (P : S → Type 0) (Q : T → Type 0) (r : Option (Outcome S))
    (k : S → Option (Outcome T))
    → Holds P r
    → ((s : S) → P s → Holds Q (k s))
    → Holds Q (and_then r k)
and_then-Holds P Q none k h c = tt
and_then-Holds P Q (some fault) k h c = tt
and_then-Holds P Q (some exits) k h c = tt
and_then-Holds P Q (some fails) k h c = tt
and_then-Holds P Q (some (ok s)) k h c = c s h

-- For a call without a property of its own.
and_then-Holds_of {ℓ κ} :
    {S : Type ℓ} {T : Type κ} (Q : T → Type 0) (r : Option (Outcome S)) (k : S → Option (Outcome T))
    → ((s : S) → Holds Q (k s))
    → Holds Q (and_then r k)
and_then-Holds_of Q none k c = tt
and_then-Holds_of Q (some fault) k c = tt
and_then-Holds_of Q (some exits) k c = tt
and_then-Holds_of Q (some fails) k c = tt
and_then-Holds_of Q (some (ok s)) k c = c s

if-Holds {ℓ} :
    {S : Type ℓ} (P : S → Type 0) (b : Bool) (x y : Option (Outcome S))
    → Holds P x
    → Holds P y
    → Holds P (if b then x else y)
if-Holds P true x y h k = h
if-Holds P false x y h k = k

each-Holds {ℓ} :
    {S : Type ℓ} (P : S → Type 0) (visit : Text → S → Option (Outcome S))
    → ((name : Text) (s : S) → P s → Holds P (visit name s))
    → (names : List Text) (s : S) → P s
    → Holds P (each visit names s)
unfolding each
each-Holds P visit keep [] s h = h
each-Holds P visit keep (name ∷ names) s h =
    and_then-Holds P P (if first_is b'.' name then some (ok s) else visit name s) (each visit names)
      (if-Holds P (first_is b'.' name) (some (ok s)) (visit name s) h (keep name s h))
      (λ s' h'. each-Holds P visit keep names s' h')

-- A property of the world, at the world of a watcher.
abbrev pub OfWorld : (World → Type 0) → Watcher → Type 0
OfWorld P s = P (s.1)

-- A property that adding a file keeps.
abbrev pub Keeps : Disk → ℕ → GroupInfo → (World → Type 0) → Type 0
Keeps D gid G P =
    (wd : ℤ) (monitorfile : Text) (w : World)
    → P w
    → Holds P (some (add_file D gid G wd monitorfile w))

module _ (D : Disk) (gid : ℕ) (G : GroupInfo) (P : World → Type 0) (kept : Keeps D gid G P) where
  upload_entry-Holds :
      (add : Text → World → Option (Outcome World))
      → ((path : Text) (w : World) → P w → Holds P (add path w))
      → (wd : ℤ) (path name : Text) (w : World) → P w
      → Holds P (upload_entry D gid G add wd path name w)
  unfolding upload_entry
  upload_entry-Holds add keep wd path name w h =
      let full = child_path 1023 path name in
      if-Holds P (D.is_file full) (some (add_file D gid G wd full w)) _ (kept wd full w h)
        (if-Holds P (D.is_dir full) (add full w) (some (ok w)) (keep full w h) h)

  upload_entries-Holds :
      (add : Text → World → Option (Outcome World))
      → ((path : Text) (w : World) → P w → Holds P (add path w))
      → (wd : ℤ) (path : Text) (w : World) → P w
      → Holds P (upload_entries D gid G add wd path w)
  unfolding upload_entries
  upload_entries-Holds add keep (negsuc n) path w h = tt
  upload_entries-Holds add keep (pos wd) path w h = listed (D.entries path)
    where
      listed :
          (r : Option (List Text))
          → Holds P (elim r as (λ _. Option (Outcome World)) [
            | none ↦ some exits
            | some names ↦ each (upload_entry D gid G add (pos wd) path) names w
          ])
      listed none = tt
      listed (some names) =
          each-Holds P (upload_entry D gid G add (pos wd) path)
            (λ name v. upload_entry-Holds add keep (pos wd) path name v) names w h

  add_upload_file-Holds :
      (fuel : ℕ) (head : List WdNode) (path : Text) (w : World)
      → P w
      → Holds P (add_upload_file D gid G fuel head path w)
  unfolding add_upload_file
  add_upload_file-Holds zero head path w h = tt
  add_upload_file-Holds (suc fuel) head path w h =
      upload_entries-Holds (λ sub w'. add_upload_file D gid G fuel head sub w')
        (λ sub v. add_upload_file-Holds fuel head sub v) (get_wd_wd_by_path head path) path w h

module _ (D : Disk) (gid : ℕ) (G : GroupInfo) (fuel : ℕ) (P : World → Type 0)
    (kept : Keeps D gid G P) where
  enter_dir-Holds :
      (above : Option ℕ) (path : Text) (s : Watcher)
      → OfWorld P s
      → Holds (OfWorld P) (enter_dir D gid G fuel above path s)
  unfolding enter_dir
  enter_dir-Holds above path (head, w) h =
      and_then-Holds_of (OfWorld P) (add_monitor_dir D fuel above path head) _ λ head'.
        and_then-Holds P (OfWorld P) (add_upload_file D gid G fuel head' path w) _
          (add_upload_file-Holds D gid G P kept fuel head' path w h) (λ w' h'. h')

  on_file-Holds :
      (e : Event) (monitorfile : Text) (s : Watcher)
      → OfWorld P s
      → Holds (OfWorld P) (on_file D gid G fuel e monitorfile s)
  unfolding on_file
  on_file-Holds e monitorfile (head, w) h =
      and_then-Holds P (OfWorld P) (some (add_file D gid G e.wd monitorfile w)) _
        (kept e.wd monitorfile w h) (λ w' h'. h')

  on_dir-Holds :
      (e : Event) (path : Text) (s : Watcher)
      → OfWorld P s
      → Holds (OfWorld P) (on_dir D gid G fuel e path s)
  unfolding on_dir
  on_dir-Holds e path (head, w) h =
      if-Holds (OfWorld P) (appears D gid G fuel e) _ _
        (enter_dir-Holds
          (elim (get_wd_by_wd head e.wd) [ none ↦ none | some node ↦ some node.suboffset ]) path
          (head, w) h)
        (if-Holds (OfWorld P) (vanishes D gid G fuel e)
          (some (ok ((del_monitor_dir head path).0, w))) (some (ok (head, w))) h h)

  on_name-Holds :
      (e : Event) (monitorfile : Text) (s : Watcher)
      → OfWorld P s
      → Holds (OfWorld P) (on_name D gid G fuel e monitorfile s)
  unfolding on_name
  on_name-Holds e monitorfile s h =
      if-Holds (OfWorld P) (D.is_file monitorfile && appears D gid G fuel e) _ _
        (on_file-Holds e monitorfile s h)
        (if-Holds (OfWorld P) e.isdir _ (some (ok s)) (on_dir-Holds e monitorfile s h) h)

  handle_event-Holds :
      (e : Event) (s : Watcher) → OfWorld P s → Holds (OfWorld P) (handle_event D gid G fuel e s)
  unfolding handle_event
  handle_event-Holds e s h = by_name e.name
    where
      by_path :
          (name : Text) (r : Option Text)
          → Holds (OfWorld P) (elim r as (λ _. Option (Outcome Watcher)) [
            | none ↦ some fault
            | some path ↦ on_name D gid G fuel e (child_path 1023 path name) s
          ])
      by_path name none = tt
      by_path name (some path) = on_name-Holds e (child_path 1023 path name) s h

      by_name :
          (r : Option Text)
          → Holds (OfWorld P) (elim r as (λ _. Option (Outcome Watcher)) [
            | none ↦ some (ok s)
            | some name ↦ elim (get_wd_path_by_wd (s.0) e.wd) [
              | none ↦ some fault
              | some path ↦ on_name D gid G fuel e (child_path 1023 path name) s
            ]
          ])
      by_name none = h
      by_name (some name) = by_path name (get_wd_path_by_wd (s.0) e.wd)

  pub handle_events-Holds :
      (es : List Event) (s : Watcher)
      → OfWorld P s
      → Holds (OfWorld P) (handle_events D gid G fuel es s)
  unfolding handle_events
  handle_events-Holds [] s h = h
  handle_events-Holds (e ∷ es) s h =
      and_then-Holds (OfWorld P) (OfWorld P) (handle_event D gid G fuel e s) _
        (handle_event-Holds e s h) (λ s' h'. handle_events-Holds es s' h')

  pub monitor_start-Holds : (w : World) → P w → Holds (OfWorld P) (monitor_start D gid G fuel w)
  unfolding monitor_start
  monitor_start-Holds w h = enter_dir-Holds none G.monitor_dir ([], w) h

  pub monitor_handle-Holds :
      (es : List Event) (w : World) → P w → Holds (OfWorld P) (monitor_handle D gid G fuel es w)
  unfolding monitor_handle
  monitor_handle-Holds es w h =
      and_then-Holds (OfWorld P) (OfWorld P) (monitor_start D gid G fuel w) _
        (monitor_start-Holds w h) (λ s k. handle_events-Holds es s k)
