-- ===== src/Conf/Lookup.antt =====
-- ConfGetNode, ConfGet, ConfGetChildValue, ConfNodeLookupChildValue, ConfNodeLookupKeyValue and
-- ConfGetChildNumber: reading the tree.
use mmdd_pro.Common.{
  ℕ, suc, Bool, true, false, List, [], ◌∷◌, Option, none, some, if◌then◌else◌, ◌==◌, Text, text_eq,
  starts_with,
}
use mmdd_pro.Util.Split.{cons_first}
use mmdd_pro.Conf.Node.{ConfNode, Forest, end, child, conf_node_lookup_child}

-- What a C function that may run into undefined behaviour gives: `fault` is the use of a NULL
-- pointer as a string.
pub data Run {ℓ} (A : Type ℓ) : Type ℓ where
  fault : Run A
  done : A → Run A

-- The runs of bytes other than the dot, empty ones included.
unfoldable pub dotted : Text → List Text
dotted [] = [] ∷ []
dotted (c ∷ t) = if c == b'.' then [] ∷ dotted t else cons_first c (dotted t)

unfoldable pub drop_empty : List Text → List Text
drop_empty [] = []
drop_empty ([] ∷ ts) = drop_empty ts
drop_empty ((c ∷ t) ∷ ts) = (c ∷ t) ∷ drop_empty ts

-- The tokens that successive calls of strtok_r(…, ".", …) return.
unfoldable pub tokens : Text → List Text
unfolding dotted drop_empty
tokens key = drop_empty (dotted key)

-- The loop of ConfGetNode, from a node with children `head`, on a first token and those after it.
unfoldable pub walk : Forest → Text → List Text → Option ConfNode
walk head token [] = conf_node_lookup_child head token
walk head token (t ∷ ts) = elim (conf_node_lookup_child head token) [
  | none ↦ none
  | some node ↦ walk node.head t ts
]

-- With no token at all, strcmp gets a NULL pointer as soon as there is a child to compare.
unfoldable pub conf_get_node : ConfNode → Text → Run (Option ConfNode)
unfolding tokens walk
conf_get_node root key = elim (tokens key) [
  | [] ↦ elim root.head [ end ↦ done none | child n f h next ↦ fault ]
  | t ∷ ts ↦ done (walk root.head t ts)
]

-- ConfGet: `none` is the return value 0, and `some v` is 1 with `*vptr` set to `v`.
unfoldable pub conf_get : ConfNode → Text → Run (Option (Option Text))
unfolding conf_get_node
conf_get root name = elim (conf_get_node root name) [
  | fault ↦ fault
  | done none ↦ done none
  | done (some node) ↦ done (some node.val)
]

-- ConfGetChildValue, likewise.
unfoldable pub conf_get_child_value : Forest → Text → Option (Option Text)
conf_get_child_value head name = elim (conf_node_lookup_child head name) [
  | none ↦ none
  | some node ↦ some node.val
]

-- ConfNodeLookupChildValue: NULL for a missing child and for a child without a value.
unfoldable pub conf_node_lookup_child_value : Forest → Text → Option Text
conf_node_lookup_child_value head name = elim (conf_node_lookup_child head name) [
  | none ↦ none
  | some node ↦ node.val
]

-- The inner loop of ConfNodeLookupKeyValue.
key_value_below : Forest → Text → Text → Run Bool
key_value_below end key value = done false
key_value_below (child n f head next) key value =
    let rest = key_value_below next key value in
    if text_eq n key
    then elim f.val [ none ↦ fault | some v ↦ if text_eq v value then done true else rest ]
    else rest

unfoldable pub conf_node_lookup_key_value : Forest → Text → Text → Run (Option ConfNode)
unfolding key_value_below
conf_node_lookup_key_value end key value = done none
conf_node_lookup_key_value (child n f head next) key value =
    let rest = conf_node_lookup_key_value next key value in
    let found : ConfNode = record { name = some n; fields = f; head = head } in
    let below : Run (Option ConfNode) = elim (key_value_below head key value) [
      | fault ↦ fault
      | done true ↦ done (some found)
      | done false ↦ rest
    ] in
    elim f.val [ none ↦ fault | some v ↦ if starts_with key v then below else rest ]

-- ConfGetChildNumber, on the children of the node.
unfoldable pub child_number : Forest → ℕ
child_number end = 0
child_number (child n f head next) = suc (child_number next)
