-- ===== src/Tests/Util.antt =====
-- utils/utils.c at concrete inputs.
use mmdd_pro.Util.Clean.{clean_string}
use mmdd_pro.Util.Clean.Laws.{clean_string_lem}
use mmdd_pro.Common.{
  ℕ, ◌-◌, ◌≡◌, refl, Bool, true, false, List, [], ◌∷◌, Option, none, some, arith, length, take, All,
  Text, codes, ℤ, pos, eqb_ℤ, if◌then◌else◌,
}
use mmdd_pro.Util.Copy.{Buffer, strlcpy, cstr}
use mmdd_pro.Util.Copy.Laws.{strlcpy_lem}
use mmdd_pro.Util.Paths.{FileSystem, recursive_make_dir, get_pre_path}
use mmdd_pro.Util.Paths.Laws.{recursive_make_dir_lem, IsLawful, is_directory}
use mmdd_pro.Util.Split.{str_split_func}
use mmdd_pro.Util.Split.Laws.{join, IsPiece, str_split_func-join}

abbrev buffer : Buffer
buffer = 1 ∷ 2 ∷ 3 ∷ []

abbrev long_text : Text
long_text = 7 ∷ 8 ∷ 9 ∷ 10 ∷ []

strlcpy_lem_example :
    (b : Buffer) × (strlcpy buffer long_text 3 ≡ some (b, length long_text))
    × (cstr b ≡ take (3 - 1) long_text)
    × (length b ≡ length buffer)
strlcpy_lem_example =
    strlcpy_lem buffer long_text 3
      ((λ e. omega arith), ((λ e. omega arith), ((λ e. omega arith), ((λ e. omega arith), tt))))
      (omega arith) (omega arith)

-- Disks on which every path is a directory, once one was made.
abbrev stat_all : Bool → Option ℕ
stat_all true = some 0o40755
stat_all false = none

abbrev all_or_nothing : FileSystem
all_or_nothing = record {
  Disk = Bool;
  stat = λ disk path. stat_all disk;
  mkdir = λ disk path. (true, true);
}

all_or_nothing-IsLawful : IsLawful all_or_nothing
unfolding is_directory mmdd_pro.Util.Paths.has_dir_bit
all_or_nothing-IsLawful = record { stat-mkdir = λ disk path e. refl }

recursive_make_dir_lem_example :
    (r : ℤ) × (disk : Bool) × (recursive_make_dir all_or_nothing 9 (codes "/a/b") false
      ≡ some (r, disk))
    × ((if eqb_ℤ r (pos 0) then is_directory all_or_nothing disk (codes "/a/b") else true) ≡ true)
recursive_make_dir_lem_example =
    recursive_make_dir_lem all_or_nothing all_or_nothing-IsLawful 9 (codes "/a/b") false
      (omega arith)

str_split_func-join_example :
    let split = str_split_func (codes "a;b;") b';' in
    (join b';' split.str_array ≡ codes "a;b;")
    × All (IsPiece b';') split.str_array
    × (split.count ≡ length split.str_array)
str_split_func-join_example = str_split_func-join (codes "a;b;") b';' (λ e. ground arith)

abbrev two_pieces : List Text
two_pieces = (7 ∷ []) ∷ (8 ∷ 9 ∷ []) ∷ []

clean_string_lem_example : clean_string (codes " \r ab c\n ") ≡ (codes "ab c", 4)
unfolding mmdd_pro.Util.Clean.Laws.trim_start mmdd_pro.Util.Paths.chop mmdd_pro.Util.Clean.is_blank
clean_string_lem_example = clean_string_lem (codes " \r ab c\n ")
