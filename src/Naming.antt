-- ===== src/Naming.antt =====
-- Names of files and of what is done with them: get_type_process, get_end_process_id,
-- is_monitor_type and add_file_suffix_process of monitor.c, switch_to_s of main.c and the table of
-- compressions of utils/compress.c. A string that may be NULL is an `Option`.
pub mod Laws
use mmdd_pro.Common.{
  ℕ, zero, suc, ◌+◌, Bool, true, false, List, [], ◌∷◌, ◌++◌, Option, none, some, map, if◌then◌else◌,
  ◌==◌, Text, codes, text_eq, starts_with, ℤ, pos, negsuc, minus_one, get_elem?,
}

-- The values of type_process_s of monitor.h, NEWIUP_FAIL for a name that has none.
pub data TypeProcess : Type 0 where
  type_keep type_replace type_add type_cut type_fail : TypeProcess

-- strncmp with the length of the word: the name begins with it.
unfoldable pub get_type_process : Option Text → TypeProcess
get_type_process none = type_fail
get_type_process (some []) = type_fail
get_type_process (some (c ∷ str)) =
    if starts_with (c ∷ str) (codes "keep")
    then type_keep
    else if starts_with (c ∷ str) (codes "replace")
    then type_replace
    else if starts_with (c ∷ str) (codes "add")
    then type_add
    else if starts_with (c ∷ str) (codes "cut")
    then type_cut
    else type_fail

-- The numbers are those of end_process_e of include/public.h.
unfoldable pub get_end_process_id : Option Text → ℤ
get_end_process_id none = minus_one
get_end_process_id (some str) =
    if text_eq str (codes "same-move")
    then pos 1
    else if text_eq str (codes "keep")
    then pos 2
    else if text_eq str (codes "delete")
    then pos 3
    else if text_eq str (codes "same-move-time")
    then pos 4
    else if text_eq str (codes "diff-move")
    then pos 5
    else if text_eq str (codes "diff-move-time")
    then pos 6
    else minus_one

-- rindex(path, '.'): what is in front of the last dot and behind it.
unfoldable pub rindex_dot : Text → Option (Text × Text)
rindex_dot [] = none
rindex_dot (c ∷ t) = elim (rindex_dot t) [
  | some (front, behind) ↦ some (c ∷ front, behind)
  | none ↦ if c == b'.' then some ([], t) else none
]

-- 0 is true.
unfoldable pub is_monitor_type : Text → Text → Bool
unfolding rindex_dot
is_monitor_type filename type = elim (rindex_dot filename) [
  | none ↦ false
  | some (front, behind) ↦ text_eq behind type
]

abbrev dotted_with : Text → Text → Text
dotted_with file type = file ++ (b'.' ∷ type)

-- The text that is left in `dstfile`; `none`: `*ptr` is read at NULL, for a file without a dot.
-- With another process `dstfile` stays as it is.
unfoldable pub add_file_suffix_process : TypeProcess → Text → Text → Text → Option Text
unfolding rindex_dot
add_file_suffix_process type_keep type monitorfile dstfile = some monitorfile
add_file_suffix_process type_add type monitorfile dstfile = some (dotted_with monitorfile type)
add_file_suffix_process type_cut type monitorfile dstfile = elim (rindex_dot monitorfile) [
  | none ↦ none
  | some (front, behind) ↦ some front
]
add_file_suffix_process type_replace type monitorfile dstfile = elim (rindex_dot monitorfile) [
  | none ↦ none
  | some (front, behind) ↦ some (dotted_with front type)
]
add_file_suffix_process type_fail type monitorfile dstfile = some dstfile

-- switch_to_s
unfoldable pub switch_to_s : Option Text → Option Text
switch_to_s none = none
switch_to_s (some src) = some (map (λ c. if c == b'-' then b'_' else c) src)

-- The position of a word in a table, from `i` on.
pub position : List Text → Text → ℕ → ℤ
position [] str i = minus_one
position (w ∷ ws) str i =
    let rest = position ws str (suc i) in if text_eq str w then pos i else rest

abbrev pub g_gzip_type : List Text
g_gzip_type = map codes (
    "gz" ∷ "Z" ∷ "zip" ∷ "7z" ∷ "lzma" ∷ "tar" ∷ "tgz" ∷ "tar.gz" ∷ "tar.bz" ∷ "tar.bz2" ∷ "tar.Z"
    ∷ [])

unfoldable pub get_compress_type_id : Option Text → ℤ
unfolding position
get_compress_type_id none = minus_one
get_compress_type_id (some str) = position g_gzip_type str 0

-- The index of a member of upload_compress_; NULL from UPLOAD_COMPRESS_MAX on.
unfoldable pub get_compress_suffix_by_id : ℕ → Option Text
get_compress_suffix_by_id index = get_elem? g_gzip_type index
