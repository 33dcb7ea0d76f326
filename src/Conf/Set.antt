-- ===== src/Conf/Set.antt =====
-- ConfSet of utils/conf.c.
pub mod Laws
pub mod Get
pub mod Final
use mmdd_pro.Common.{
  ℕ, zero, suc, Bool, true, false, List, [], ◌∷◌, Option, none, some, if◌then◌else◌, Text, text_eq,
}
use mmdd_pro.Conf.Node.{
  ConfNode, Fields, Forest, end, child, new_fields, insert_tail, conf_node_lookup_child,
  update_child,
}
use mmdd_pro.Conf.Lookup.{Run, fault, done, tokens, walk, conf_get_node}

-- The change of ConfSet to the node of its last token.
abbrev pub put_value : Text → Bool → Fields → Fields
put_value val allow f = record f { val = some val; allow_override = allow }

-- The branch for a node that is there: the same walk as ConfGetNode, with the change at its end.
unfoldable pub set_at : Forest → Text → List Text → (Fields → Fields) → Forest
set_at head token [] change = update_child token (λ f h. (change f, h)) head
set_at head token (t ∷ ts) change = update_child token (λ f h. (f, set_at h t ts change)) head

-- A new child of a node: `node->parent` is set.
abbrev pub linked_fields : Fields
linked_fields = record new_fields { has_parent = true }

-- At the last token: set, unless the node may not be overridden.
unfoldable pub set_last : Text → Bool → Fields → Fields
set_last val allow f = if f.allow_override then put_value val allow f else f

-- The branch for a missing node: each token is looked up, created at the tail where it is
-- missing, and entered.
unfoldable pub create_at : Forest → Text → List Text → (Fields → Fields) → Forest
create_at head token [] change =
    let there = update_child token (λ f h. (change f, h)) head in
    let created = insert_tail head token (change linked_fields) end in
    elim (conf_node_lookup_child head token) [ none ↦ created | some node ↦ there ]
create_at head token (t ∷ ts) change =
    let there = update_child token (λ f h. (f, create_at h t ts change)) head in
    let created = insert_tail head token linked_fields (create_at end t ts change) in
    elim (conf_node_lookup_child head token) [ none ↦ created | some node ↦ there ]

-- ConfSet on the tokens of the name: the return value and the tree.
unfoldable pub conf_set_tokens : Forest → Text → List Text → Text → Bool → ℕ × Forest
conf_set_tokens head t ts val allow = elim (walk head t ts) [
  | some node ↦
      if node.allow_override then (1, set_at head t ts (put_value val allow)) else (0, head)
  | none ↦ (1, create_at head t ts (set_last val allow))
]

unfoldable pub conf_set : ConfNode → Text → Text → Bool → Run (ℕ × ConfNode)
unfolding conf_set_tokens set_last
conf_set root name val allow = elim (tokens name) [
  | [] ↦ fault
  | t ∷ ts ↦
      let (ret, head) = conf_set_tokens root.head t ts val allow in
      done (ret, record root { head = head })
]
