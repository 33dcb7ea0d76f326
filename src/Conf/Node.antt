-- ===== src/Conf/Node.antt =====
-- ConfNode of utils/conf.h. The children of a node hang in a TAILQ, whose links are the `next`
-- fields of the children: a `Forest` is a child, its own children (`head`) and its later siblings
-- (`next`). Every node that the source puts into a TAILQ has its name set before, so a child has a
-- name; the root has none. Of the `parent` pointer the source asks only whether it is NULL.
-- Allocation is taken to succeed.
pub mod Laws
use mmdd_pro.Common.{
  ℕ, Bool, true, false, List, [], ◌∷◌, Option, none, some, if◌then◌else◌, Text, text_eq,
}

pub record Fields : Type 0 where
  pub val : Option Text
  pub is_seq : Bool
  pub allow_override : Bool
  pub has_parent : Bool

pub data Forest : Type 0 where
  end : Forest
  child : Text → Fields → (head : Forest) → (next : Forest) → Forest

pub record ConfNode : Type 0 where
  pub name : Option Text
  pub fields : Fields
  pub open fields use *
  pub head : Forest

-- ConfNodeNew
abbrev pub new_fields : Fields
new_fields = record { val = none; is_seq = false; allow_override = true; has_parent = false }

abbrev pub conf_node_new : ConfNode
conf_node_new = record { name = none; fields = new_fields; head = end }

-- TAILQ_INSERT_TAIL(&parent->head, node, next) for a node named `name`.
unfoldable pub insert_tail : Forest → Text → Fields → Forest → Forest
insert_tail end name f kids = child name f kids end
insert_tail (child n g h next) name f kids = child n g h (insert_tail next name f kids)

-- ConfNodeLookupChild: the first child of that name, NULL if there is none.
unfoldable pub conf_node_lookup_child : Forest → Text → Option ConfNode
conf_node_lookup_child end name = none
conf_node_lookup_child (child n f head next) name =
    if text_eq n name
    then some (record { name = some n; fields = f; head = head })
    else conf_node_lookup_child next name

-- A change through the pointer that ConfNodeLookupChild returns.
unfoldable pub update_child : Text → (Fields → Forest → Fields × Forest) → Forest → Forest
update_child name change end = end
update_child name change (child n f head next) =
    if text_eq n name
    then child n (change f head).0 (change f head).1 next
    else child n f head (update_child name change next)
