-- ===== src/Util/Paths.antt =====
-- PathIsAbsolute, PathIsRelative, get_pre_path and recursive_make_dir of utils/utils.c (not the
-- Windows branch). stat and mkdir of the operating system are the record `FileSystem`.
pub mod Laws
use mmdd_pro.Common.{
  ℕ, zero, suc, ◌-◌, ◌/◌, ◌%◌, ◌≡◌, Bool, true, false, not, ◌&&◌, List, [], ◌∷◌, Option, none, some,
  length, ltb, ◌==◌, if◌then◌else◌, Text, ℤ, pos, minus_one,
}

unfoldable pub first_is : ℕ → Text → Bool
first_is c [] = false
first_is c (x ∷ t) = x == c

pub path_is_absolute : Text → Bool
unfolding first_is
path_is_absolute path = ltb 1 (length path) && first_is b'/' path

unfoldable pub path_is_relative : Text → Bool
unfolding path_is_absolute
path_is_relative path = not (path_is_absolute path)

-- `while (len > 0 && p(path[len-1])) path[--len] = '\0';`
unfoldable pub chop : (ℕ → Bool) → Text → Text
chop p [] = []
chop p (c ∷ t) = elim (chop p t) [ [] ↦ if p c then [] else c ∷ [] | d ∷ s ↦ c ∷ d ∷ s ]

abbrev is_slash : ℕ → Bool
is_slash c = c == b'/'

unfoldable pub get_pre_path : Text → Text
unfolding chop
get_pre_path path = chop is_slash (chop (λ c. not (is_slash c)) (chop is_slash path))

-- The state of the disk, st_mode as stat reports it (`none` if stat fails), and mkdir with its
-- success. The chmod behind a successful mkdir is part of `mkdir`.
pub record FileSystem : Type 1 where
  pub Disk : Type 0
  pub stat : Disk → Text → Option ℕ
  pub mkdir : Disk → Text → Disk × Bool

-- st_mode & S_IFDIR, where S_IFDIR is 0o40000.
unfoldable pub has_dir_bit : ℕ → Bool
has_dir_bit mode = mode / 0o40000 % 2 == 1

abbrev predir_size : ℕ
predir_size = 2048

module _ (F : FileSystem) where
  unfoldable pub one_dir_make : Text → F.Disk → ℤ × F.Disk
  one_dir_make path disk =
      let (disk', made) = F.mkdir disk path in if made then (pos 0, disk') else (minus_one, disk')

  -- After the first mkdir has failed and the parent was made: `made` is the parent's result.
  unfoldable pub retry_make : Text → ℤ × F.Disk → ℤ × F.Disk
  unfolding one_dir_make
  retry_make path (pos zero, disk) = one_dir_make path disk
  retry_make path (_, disk) = (minus_one, disk)

  -- `none`: the fuel has run out.
  unfoldable pub recursive_make_dir : ℕ → Text → F.Disk → Option (ℤ × F.Disk)
  recursive_make_dir zero path disk = none
  recursive_make_dir (suc fuel) path disk =
      let (disk', tried) = F.mkdir disk path in
      let parent = recursive_make_dir fuel (get_pre_path path) disk' in
      let above =
        if ltb (predir_size - 1) (length path)
        then some (minus_one, disk')
        else elim parent [ none ↦ none | some r ↦ some (retry_make path r) ] in
      let missing = if tried then some (pos 0, disk') else above in
      if length path == 0 then some (minus_one, disk) else elim (F.stat disk path) [
        | some mode ↦ some (if has_dir_bit mode then pos 0 else minus_one, disk)
        | none ↦ missing
      ]
