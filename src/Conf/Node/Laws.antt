-- ===== src/Conf/Node/Laws.antt =====
-- Looking up a child of a ConfNode (utils/conf.c) after a change among the children.
use mmdd_pro.Common.{◌≡◌, refl, false, none, some, arith, Text, text_eq, text_eq_iff}
use mmdd_pro.Conf.Node.{
  ConfNode, Fields, Forest, end, child, insert_tail, conf_node_lookup_child, update_child,
}

-- The node that a change leaves.
abbrev pub changed : (Fields → Forest → Fields × Forest) → ConfNode → ConfNode
changed change node = record node {
  fields = (change node.fields node.head).0;
  head = (change node.fields node.head).1;
}

pub lookup_child-update_self :
    (name : Text) (change : Fields → Forest → Fields × Forest) (head : Forest) (node : ConfNode)
    → conf_node_lookup_child head name ≡ some node
    → conf_node_lookup_child (update_child name change head) name ≡ some (changed change node)
unfolding conf_node_lookup_child update_child
lookup_child-update_self name change end node e = ground arith
lookup_child-update_self name change (child n f h next) node e =
    ground (arith, lookup_child-update_self name change next node)

pub lookup_child-update_ne :
    (name other : Text) (change : Fields → Forest → Fields × Forest) (head : Forest)
    → text_eq other name ≡ false
    → conf_node_lookup_child (update_child name change head) other
      ≡ conf_node_lookup_child head other
unfolding conf_node_lookup_child update_child
lookup_child-update_ne name other change end ne = refl
lookup_child-update_ne name other change (child n f h next) ne = ground (
  arith,
  text_eq_iff n name,
  text_eq_iff n other,
  text_eq_iff other name,
  lookup_child-update_ne name other change next ne,
)

pub lookup_child-insert_self :
    (name : Text) (f : Fields) (kids head : Forest)
    → conf_node_lookup_child head name ≡ none
    → conf_node_lookup_child (insert_tail head name f kids) name
      ≡ some (record { name = some name; fields = f; head = kids })
unfolding conf_node_lookup_child insert_tail
lookup_child-insert_self name f kids end e = ground (arith, text_eq_iff name name)
lookup_child-insert_self name f kids (child n g h next) e =
    ground (arith, lookup_child-insert_self name f kids next)

pub lookup_child-insert_ne :
    (name other : Text) (f : Fields) (kids head : Forest)
    → text_eq other name ≡ false
    → conf_node_lookup_child (insert_tail head name f kids) other
      ≡ conf_node_lookup_child head other
unfolding conf_node_lookup_child insert_tail
lookup_child-insert_ne name other f kids end ne =
    ground (arith, text_eq_iff name other, text_eq_iff other name)
lookup_child-insert_ne name other f kids (child n g h next) ne =
    ground (arith, lookup_child-insert_ne name other f kids next ne)

-- Only the change to the node that is found counts.
pub update_child-cong :
    (name : Text) (c d : Fields → Forest → Fields × Forest) (head : Forest) (node : ConfNode)
    → conf_node_lookup_child head name ≡ some node
    → c node.fields node.head ≡ d node.fields node.head
    → update_child name c head ≡ update_child name d head
unfolding conf_node_lookup_child update_child
update_child-cong name c d end node e h = refl
update_child-cong name c d (child n f kids next) node e h =
    ground (arith, update_child-cong name c d next node)
