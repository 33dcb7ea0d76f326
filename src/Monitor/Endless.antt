-- ===== src/Monitor/Endless.antt =====
-- Where add_monitor_dir (utils/encapsulate_queue.c) does not end.
use mmdd_pro.Common.{
  ℕ, zero, suc, ◌≡◌, refl, ap, true, false, List, [], ◌∷◌, ◌++◌, Option, none, some, arith, Text,
  length, take,
}
use mmdd_pro.Util.Paths.{first_is}
use mmdd_pro.Watch.{WdNode}
use mmdd_pro.Monitor.{Disk, each, add_entry, add_node, add_monitor_dir}

take-all : (n : ℕ) (s t : Text) → length s ≡ n → take n (s ++ t) ≡ s
take-all zero [] t e = refl
take-all zero (x ∷ s) t e = absurd (omega (arith, e))
take-all (suc n) [] t e = absurd (omega (arith, e))
take-all (suc n) (x ∷ s) t e = ap (λ r. x ∷ r) (take-all n s t (omega (arith, e)))

-- A directory whose path has 511 bytes, which inotify takes and whose first name does not begin with
-- a dot: the path made for that name is the path of the directory again, cut off in the buffer, and
-- no fuel is enough.
pub add_monitor_dir-endless :
    (D : Disk) (path name : Text) (names : List Text) (wd : ℕ)
    → length path ≡ 511
    → D.is_dir path ≡ true
    → D.add_watch path ≡ some wd
    → D.entries path ≡ some (name ∷ names)
    → first_is b'.' name ≡ false
    → (fuel : ℕ) (above : Option ℕ) (head : List WdNode)
    → add_monitor_dir D fuel above path head ≡ none
unfolding add_monitor_dir add_node add_entry each
add_monitor_dir-endless D path name names wd long dir watched listed shown zero above head = refl
add_monitor_dir-endless D path name names wd long dir watched listed shown (suc fuel) above head =
    let again = take-all 511 path (b'/' ∷ name) long in
    let rest = add_monitor_dir-endless D path name names wd long dir watched listed shown fuel in
    simp (watched, long, listed, shown, again, dir, rest, add_monitor_dir)
