-- ===== src/Conf/Remove.antt =====
-- ConfNodeRemove and ConfRemove of utils/conf.c.
use mmdd_pro.Common.{List, [], ◌∷◌, none, some, if◌then◌else◌, Text, text_eq}
use mmdd_pro.Conf.Node.{ConfNode, Forest, end, child, update_child}
use mmdd_pro.Conf.Lookup.{tokens, walk}

-- TAILQ_REMOVE of the child that ConfNodeLookupChild finds.
unfoldable pub remove_child : Text → Forest → Forest
remove_child name end = end
remove_child name (child n f head next) =
    if text_eq n name then next else child n f head (remove_child name next)

-- ConfNodeRemove through the walk that found the node.
unfoldable pub remove_at : Forest → Text → List Text → Forest
remove_at head token [] = remove_child token head
remove_at head token (t ∷ ts) = update_child token (λ f h. (f, remove_at h t ts)) head

-- `missing` is the return value 0 of ConfRemove, the others are 1. ConfNodeRemove takes the node
-- out of the TAILQ only if its `parent` is set and frees it in any case: `dangling` is a tree
-- with a freed node in it.
pub data Removal : Type 0 where
  no_token missing dangling : Removal
  removed : Forest → Removal

unfoldable pub conf_remove : ConfNode → Text → Removal
conf_remove root name = elim (tokens name) [
  | [] ↦ no_token
  | t ∷ ts ↦ elim (walk root.head t ts) [
    | none ↦ missing
    | some node ↦ if node.has_parent then removed (remove_at root.head t ts) else dangling
  ]
]
