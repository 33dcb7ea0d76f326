-- ===== src/Monitor/Depth.antt =====
-- How deep the walks of the monitor thread go (add_monitor_dir of utils/encapsulate_queue.c,
-- add_upload_file of monitor.c): they end where no directory's path fills the buffers, and do not
-- end where one does.
use mmdd_pro.Common.{
  ℕ, zero, suc, ◌+◌, ◌≤◌, ◌<◌, ◌≡◌, refl, Bool, true, false, List, [], ◌∷◌, ◌++◌, Option, none,
  some, arith, if◌then◌else◌, Text, length, ltb, length-append, length-take, ℤ, pos, negsuc,
}
use mmdd_pro.Util.Paths.{first_is}
use mmdd_pro.Watch.{WdNode, get_wd_wd_by_path}
use mmdd_pro.Pipeline.State.{World}
use mmdd_pro.Config.{Outcome, fault, exits, fails, ok}
use mmdd_pro.Config.Groups.{GroupInfo}
use mmdd_pro.Monitor.{
  Disk, child_path, and_then, each, suboffset_of, wd_node, add_entry, add_node, add_monitor_dir,
  add_file, upload_entry, upload_entries, add_upload_file,
}

-- The fuel has not run out.
abbrev pub Ends {ℓ} : {S : Type ℓ} → Option (Outcome S) → Type 0
Ends none = ⊥
Ends (some r) = Unit

pub and_then-Ends {ℓ κ} :
    {S : Type ℓ} {T : Type κ} (r : Option (Outcome S)) (k : S → Option (Outcome T))
    → Ends r
    → ((s : S) → Ends (k s))
    → Ends (and_then r k)
and_then-Ends none k h c = absurd h
and_then-Ends (some fault) k h c = tt
and_then-Ends (some exits) k h c = tt
and_then-Ends (some fails) k h c = tt
and_then-Ends (some (ok s)) k h c = c s

pub if-Ends {ℓ} :
    {S : Type ℓ} (b : Bool) (x y : Option (Outcome S))
    → (b ≡ true → Ends x)
    → (b ≡ false → Ends y)
    → Ends (if b then x else y)
if-Ends true x y h k = h refl
if-Ends false x y h k = k refl

each-Ends {ℓ} :
    {S : Type ℓ} (visit : Text → S → Option (Outcome S))
    → ((name : Text) (s : S) → Ends (visit name s))
    → (names : List Text) (s : S) → Ends (each visit names s)
unfolding each
each-Ends visit h [] s = tt
each-Ends visit h (name ∷ names) s =
    and_then-Ends _ _
      (if-Ends (first_is b'.' name) (some (ok s)) (visit name s) (λ e. tt) (λ e. h name s))
      (λ s'. each-Ends visit h names s')

-- The path of every directory leaves room in add_monitor_dir's buffer for a slash and one byte.
pub record IsShallow (D : Disk) : Type 0 where
  pub room : (path : Text) → D.is_dir path ≡ true → length path < 510

child_path-lt :
    (D : Disk) (size : ℕ) (path name : Text)
    → IsShallow D
    → 511 ≤ size
    → D.is_dir (child_path size path name) ≡ true
    → (length path < length (child_path size path name))
      × (length (child_path size path name) < 510)
child_path-lt D size path name sh big e =
    let short = sh.room (child_path size path name) e in
    let cut = length-take size (path ++ (b'/' ∷ name)) in
    let whole = length-append path (b'/' ∷ name) in (omega (arith, short, cut, whole), short)

module _ (D : Disk) (sh : IsShallow D) where
  pub add_monitor_dir-Ends :
      (fuel : ℕ) (above : Option ℕ) (path : Text) (head : List WdNode)
      → 1 ≤ fuel
      → 512 ≤ fuel + length path
      → Ends (add_monitor_dir D fuel above path head)
  unfolding add_monitor_dir add_node add_entry
  add_monitor_dir-Ends zero above path head one enough = absurd (omega arith)
  add_monitor_dir-Ends (suc fuel) above path head one enough =
      watched (D.add_watch path)
        (λ sub v e f. add_monitor_dir-Ends fuel (some (suboffset_of above path)) sub v e f)
    where
      add : Text → List WdNode → Option (Outcome (List WdNode))
      add sub head' = add_monitor_dir D fuel (some (suboffset_of above path)) sub head'

      listed :
          ((sub : Text) (v : List WdNode) → 1 ≤ fuel → 512 ≤ fuel + length sub → Ends (add sub v))
          → (wd : ℕ) (r : Option (List Text))
          → Ends (elim r as (λ _. Option (Outcome (List WdNode))) [
            | none ↦ some exits
            | some names ↦ each (add_entry D add path) names (head ++ (wd_node wd above path ∷ []))
          ])
      listed ih wd none = tt
      listed ih wd (some names) =
          each-Ends (add_entry D add path)
            (λ name v.
              if-Ends (D.is_dir (child_path 511 path name)) _ (some (ok v))
                (λ e.
                  let (longer, room) = child_path-lt D 511 path name sh (omega arith) e in
                  ih (child_path 511 path name) v (omega (arith, room, longer, enough))
                    (omega (arith, longer, enough)))
                (λ e. tt))
            names _

      watched :
          (r : Option ℕ)
          → ((sub : Text) (v : List WdNode) → 1 ≤ fuel → 512 ≤ fuel + length sub → Ends (add sub v))
          → Ends (elim r as (λ _. Option (Outcome (List WdNode))) [
            | none ↦ some exits
            | some wd ↦ add_node D add wd above path head
          ])
      watched none ih = tt
      watched (some wd) ih =
          if-Ends (ltb (length path) 512) _ (some fault) (λ e. listed ih wd (D.entries path))
            (λ e. tt)

  module _ (gid : ℕ) (G : GroupInfo) where
    pub add_upload_file-Ends :
        (fuel : ℕ) (head : List WdNode) (path : Text) (w : World)
        → 1 ≤ fuel
        → 512 ≤ fuel + length path
        → Ends (add_upload_file D gid G fuel head path w)
    unfolding add_upload_file upload_entries upload_entry
    add_upload_file-Ends zero head path w one enough = absurd (omega arith)
    add_upload_file-Ends (suc fuel) head path w one enough =
        watched (get_wd_wd_by_path head path)
          (λ sub v e f. add_upload_file-Ends fuel head sub v e f)
      where
        add : Text → World → Option (Outcome World)
        add sub w' = add_upload_file D gid G fuel head sub w'

        listed :
            ((sub : Text) (v : World) → 1 ≤ fuel → 512 ≤ fuel + length sub → Ends (add sub v))
            → (wd : ℕ) (r : Option (List Text))
            → Ends (elim r as (λ _. Option (Outcome World)) [
              | none ↦ some exits
              | some names ↦ each (upload_entry D gid G add (pos wd) path) names w
            ])
        listed ih wd none = tt
        listed ih wd (some names) =
            each-Ends (upload_entry D gid G add (pos wd) path)
              (λ name v.
                if-Ends (D.is_file (child_path 1023 path name))
                  (some (add_file D gid G (pos wd) (child_path 1023 path name) v)) _ (λ e. tt)
                  (λ e.
                    if-Ends (D.is_dir (child_path 1023 path name)) _ (some (ok v))
                      (λ e'.
                        let (longer, room) = child_path-lt D 1023 path name sh (omega arith) e' in
                        ih (child_path 1023 path name) v (omega (arith, room, longer, enough))
                          (omega (arith, longer, enough)))
                      (λ e'. tt)))
              names w

        watched :
            (wd : ℤ)
            → ((sub : Text) (v : World) → 1 ≤ fuel → 512 ≤ fuel + length sub → Ends (add sub v))
            → Ends (upload_entries D gid G add wd path w)
        watched (negsuc n) ih = tt
        watched (pos wd) ih = listed ih wd (D.entries path)
