-- ===== src/Conf/Include.antt =====
-- ConfLoadCompleteIncludePath of utils/conf.c. What malloc returns is a buffer with any bytes in it,
-- and a parameter.
pub mod Laws
use mmdd_pro.Common.{
  ℕ, ◌+◌, Bool, true, false, not, List, [], ◌∷◌, Option, none, some, length, ◌==◌, if◌then◌else◌,
  Text, codes,
}
use mmdd_pro.Util.Copy.{Buffer, strlcpy, strlcat, cstr}
use mmdd_pro.Util.Paths.{path_is_relative}
use mmdd_pro.Conf.Node.{ConfNode}
use mmdd_pro.Conf.Lookup.{Run, fault, done, conf_get}

-- path[strlen(path) - 1] == c; of an empty path that is the byte in front of the buffer.
unfoldable pub last_is : ℕ → Text → Option Bool
last_is c [] = none
last_is c (x ∷ []) = some (x == c)
last_is c (x ∷ y ∷ t) = last_is c (y ∷ t)

-- strlcat on a buffer of `path_len` bytes, if there is one.
abbrev pub append : ℕ → Text → Option (Buffer × ℕ) → Option (Buffer × ℕ)
append path_len src none = none
append path_len src (some (path, l)) = strlcat path src path_len

-- The test of the last byte, and the slash.
unfoldable pub with_slash : ℕ → Option (Buffer × ℕ) → Option (Buffer × ℕ)
unfolding last_is
with_slash path_len none = none
with_slash path_len (some (path, l)) = elim (last_is b'/' (cstr path)) [
  | none ↦ none
  | some slash ↦ if slash then some (path, l) else append path_len (codes "/") (some (path, l))
]

abbrev pub the_path : Option (Buffer × ℕ) → Run Text
the_path none = fault
the_path (some (path, l)) = done (cstr path)

unfoldable pub complete : (ℕ → Buffer) → Text → Text → Run Text
unfolding with_slash
complete malloc defaultpath file =
    let path_len = length defaultpath + length file + 2 in
    the_path
      (append path_len file (with_slash path_len (strlcpy (malloc path_len) defaultpath path_len)))

unfoldable pub conf_load_complete_include_path : (ℕ → Buffer) → ConfNode → Text → Run Text
unfolding complete
conf_load_complete_include_path malloc root file =
    if path_is_relative file
    then elim (conf_get root (codes "include-path")) [
      | fault ↦ fault
      | done none ↦ done file
      | done (some none) ↦ fault
      | done (some (some defaultpath)) ↦ complete malloc defaultpath file
    ]
    else done file
