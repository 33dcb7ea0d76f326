-- ===== src/Conf/Dump.antt =====
-- ConfPrintNameArray, ConfNodeDump and ConfDump of utils/conf.c: the lines that are printed. `name` of
-- ConfPrintNameArray has 128 * 128 bytes, the array of names 128 entries.
pub mod Names
pub mod Laws
use mmdd_pro.Common.{
  ℕ, zero, suc, ◌+◌, ◌*◌, Bool, true, false, List, [], ◌∷◌, ◌++◌, Option, none, some, if◌then◌else◌,
  Text, codes, take, length, ltb,
}
use mmdd_pro.Conf.Node.{ConfNode, Forest, end, child}

-- strlcat(name, …, sizeof(name)) on the text in `name`.
abbrev pub append_name : Text → Text → Text
append_name name t = take 16383 (name ++ t)

-- ConfPrintNameArray, on the names of the levels 0 to `level` from which the loop starts.
unfoldable pub conf_print_name_array : Text → List Text → Text
conf_print_name_array name [] = name
conf_print_name_array name (n ∷ []) = append_name name n
conf_print_name_array name (n ∷ m ∷ ns) =
    conf_print_name_array (append_name (append_name name n) (codes ".")) (m ∷ ns)

-- What is printed for a node: the full name, and the value, which may be NULL.
abbrev pub Line : Type 0
Line = Text × Option Text

-- `none`: a name is written behind the 128 entries.
abbrev pub and_lines : Option (List Line) → Option (List Line) → Option (List Line)
and_lines none rest = none
and_lines (some ls) none = none
and_lines (some ls) (some ms) = some (ls ++ ms)

-- The names of the nodes above are `above`, from the root on; `level` is their number.
unfoldable pub conf_node_dump : Option Text → List Text → Forest → Option (List Line)
unfolding conf_print_name_array
conf_node_dump prefix above end = some []
conf_node_dump prefix above (child n f head next) =
    let names = above ++ (n ∷ []) in
    let full = conf_print_name_array [] names in
    let shown : Text = elim prefix [ none ↦ full | some p ↦ p ++ (b'.' ∷ full) ] in
    let inside = conf_node_dump prefix names head in
    let rest = conf_node_dump prefix above next in
    if ltb (length above) 128
    then and_lines (some ((shown, f.val) ∷ [])) (and_lines inside rest)
    else none

unfoldable pub conf_dump : ConfNode → Option (List Line)
unfolding conf_node_dump
conf_dump root = conf_node_dump none [] root.head
