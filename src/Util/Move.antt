-- ===== src/Util/Move.antt =====
-- move_file of utils/utils.c: the copying of a file in blocks, and the removal of the source. The
-- success of the calls of the system is a record.
pub mod Laws
use mmdd_pro.Common.{
  ℕ, zero, suc, ◌+◌, Bool, true, false, not, List, [], ◌∷◌, ◌++◌, Option, none, some, if◌then◌else◌,
  ◌==◌, Text, text_eq, length, take, drop,
}

-- The files with their bytes.
abbrev pub Store : Type 0
Store = Text → Option (List ℕ)

abbrev pub put : Text → Option (List ℕ) → Store → Store
put path v store q = if text_eq path q then v else store q

-- Whether the calls succeed: open and fstat of the source, open of the destination, and the k-th
-- read; how many bytes the k-th write takes at most; remove of the source. `blocksize` is st_blksize.
pub record Io : Type 0 where
  pub source_opens : Bool
  pub stats : Bool
  pub target_opens : Bool
  pub blocksize : ℕ
  pub reads : ℕ → Bool
  pub writes : ℕ → ℕ
  pub removes : Bool

abbrev pub bytes_of : Option (List ℕ) → List ℕ
bytes_of none = []
bytes_of (some bytes) = bytes

module _ (io : Io) (orig_file dest_file : Text) where
  -- What read gives from the offset `off` on.
  abbrev pub block_at : ℕ → Store → List ℕ
  block_at off store = take io.blocksize (drop off (bytes_of (store orig_file)))

  abbrev pub append_to_target : List ℕ → Store → Store
  append_to_target bytes store = put dest_file (some (bytes_of (store dest_file) ++ bytes)) store

  -- The while loop, from its k-th round on; the Boolean is whether it ends without an error. `none`:
  -- the fuel has run out.
  unfoldable pub copy_blocks : ℕ → ℕ → ℕ → Store → Option (Bool × Store)
  copy_blocks zero k off store = none
  copy_blocks (suc fuel) k off store =
      let block = block_at off store in
      let written = take (io.writes k) block in
      let store' = append_to_target written store in
      let rest = copy_blocks fuel (suc k) (off + length block) store' in
      let after_write : Option (Bool × Store) =
        if length written == length block then rest else some (false, store') in
      let after_read = if length block == 0 then some (true, store) else after_write in
      if io.reads k then after_read else some (false, store)

  -- The result of remove is not looked at.
  abbrev pub finish_move : Option (Bool × Store) → Option (Bool × Store)
  finish_move none = none
  finish_move (some (ended, store)) =
      if ended
      then some (true, if io.removes then put orig_file none store else store)
      else some (false, store)

  -- From open of the destination on, which truncates it.
  unfoldable pub copy_and_remove : ℕ → Store → Option (Bool × Store)
  unfolding copy_blocks
  copy_and_remove fuel store =
      if io.target_opens
      then finish_move (copy_blocks fuel 0 0 (put dest_file (some []) store))
      else some (false, store)

  unfoldable pub move_file : ℕ → Store → Option (Bool × Store)
  unfolding copy_and_remove
  move_file fuel store = elim (store orig_file) [
    | none ↦ some (false, store)
    | some bytes ↦
        if io.source_opens
        then (if io.stats then copy_and_remove fuel store else some (false, store))
        else some (false, store)
  ]
