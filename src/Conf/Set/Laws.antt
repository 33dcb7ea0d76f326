-- ===== src/Conf/Set/Laws.antt =====
-- The tree that ConfSet of utils/conf.c leaves, walked again: the node of the path and the others.
use mmdd_pro.Common.{
  ◌≡◌, ◌≢◌, refl, inl, inr, false, List, [], ◌∷◌, Option, none, some, arith, Text, text_eq,
  text_eq_iff, Bool-cases, Option-cases,
}
use mmdd_pro.Conf.Node.{ConfNode, Fields, Forest, end, conf_node_lookup_child}
use mmdd_pro.Conf.Node.Laws.{
  lookup_child-update_self, lookup_child-update_ne, lookup_child-insert_self,
  lookup_child-insert_ne, update_child-cong,
}
use mmdd_pro.Conf.Lookup.{walk}
use mmdd_pro.Conf.Set.{set_at, linked_fields, create_at}

walk-end : (t : Text) (ts : List Text) → walk end t ts ≡ none
unfolding walk conf_node_lookup_child
walk-end t [] = refl
walk-end t (u ∷ us) = refl

-- Where the node is there, creating and updating are the same walk.
pub set_at-create_at :
    (t : Text) (ts : List Text) (change : Fields → Fields) (head : Forest) (node : ConfNode)
    → walk head t ts ≡ some node
    → set_at head t ts change ≡ create_at head t ts change
unfolding set_at create_at walk
set_at-create_at t [] change head node e = ground arith
set_at-create_at t (u ∷ us) change head node e =
    elim (Option-cases (conf_node_lookup_child head t)) [
      | inl missing ↦ ground arith
      | inr (n, found) ↦
          rw (found, create_at)
            (update_child-cong t _ _ head n found
              (ground (arith, set_at-create_at u us change n.head node)))
    ]

abbrev pub fields_of : Option ConfNode → Option Fields
fields_of none = none
fields_of (some node) = some node.fields

-- The fields that ConfSet changes: those of the node, or those of a new one.
abbrev pub old_fields : Option ConfNode → Fields
old_fields none = linked_fields
old_fields (some node) = node.fields

pub fields-create_at :
    (t : Text) (ts : List Text) (change : Fields → Fields) (head : Forest)
    → fields_of (walk (create_at head t ts change) t ts)
      ≡ some (change (old_fields (walk head t ts)))
unfolding create_at walk
fields-create_at t [] change head = elim (Option-cases (conf_node_lookup_child head t)) [
  | inl e ↦ ground (arith, lookup_child-insert_self t (change linked_fields) end head)
  | inr (old, e) ↦ ground (arith, lookup_child-update_self t (λ f h. (change f, h)) head old)
]
fields-create_at t (u ∷ us) change head = elim (Option-cases (conf_node_lookup_child head t)) [
  | inl e ↦ ground (
    arith,
    lookup_child-insert_self t linked_fields (create_at end u us change) head,
    fields-create_at u us change end,
    walk-end u us,
  )
  | inr (old, e) ↦ ground (
    arith,
    lookup_child-update_self t (λ f h. (f, create_at h u us change)) head old,
    fields-create_at u us change old.head,
  )
]

walk-congr :
    (t : Text) (ts : List Text) (h k : Forest)
    → conf_node_lookup_child h t ≡ conf_node_lookup_child k t
    → walk h t ts ≡ walk k t ts
unfolding walk
walk-congr t [] h k e = e
walk-congr t (u ∷ us) h k e = rw (e, walk)

lookup_child-create_ne :
    (t other : Text) (ts : List Text) (change : Fields → Fields) (head : Forest)
    → text_eq other t ≡ false
    → conf_node_lookup_child (create_at head t ts change) other ≡ conf_node_lookup_child head other
unfolding create_at
lookup_child-create_ne t other [] change head ne = ground (
  arith,
  lookup_child-insert_ne t other (change linked_fields) end head,
  lookup_child-update_ne t other (λ f h. (change f, h)) head,
)
lookup_child-create_ne t other (u ∷ us) change head ne = ground (
  arith,
  lookup_child-insert_ne t other linked_fields (create_at end u us change) head,
  lookup_child-update_ne t other (λ f h. (f, create_at h u us change)) head,
)

pub create_at-frame_ne :
    (t other : Text) (ts us : List Text) (change : Fields → Fields) (head : Forest)
    → text_eq other t ≡ false
    → walk (create_at head t ts change) other us ≡ walk head other us
create_at-frame_ne t other ts us change head ne =
    walk-congr other us _ _ (lookup_child-create_ne t other ts change head ne)

-- The fields of a node off the path stay.
pub create_at-frame :
    (ts us : List Text) (t : Text) (change : Fields → Fields) (head : Forest) (node : ConfNode)
    → ts ≢ us
    → walk head t us ≡ some node
    → fields_of (walk (create_at head t ts change) t us) ≡ some node.fields
unfolding create_at walk
create_at-frame [] [] t change head node ne e = absurd (ne refl)
create_at-frame [] (v ∷ vs) t change head node ne e =
    elim (Option-cases (conf_node_lookup_child head t)) [
      | inl missing ↦ ground arith
      | inr (old, found) ↦
          ground (arith, lookup_child-update_self t (λ f h. (change f, h)) head old)
    ]
create_at-frame (u ∷ us) [] t change head node ne e =
    ground (arith, lookup_child-update_self t (λ f h. (f, create_at h u us change)) head node)
create_at-frame (u ∷ us) (v ∷ vs) t change head node ne e =
    elim (Option-cases (conf_node_lookup_child head t)) [
      | inl missing ↦ ground arith
      | inr (old, found) ↦ elim (Bool-cases (text_eq v u)) [
        | inl same ↦ ground (
          arith,
          (text_eq_iff v u).0 same,
          lookup_child-update_self t (λ f h. (f, create_at h u us change)) head old,
          create_at-frame us vs u change old.head node,
        )
        | inr other ↦ ground (
          arith,
          lookup_child-update_self t (λ f h. (f, create_at h u us change)) head old,
          create_at-frame_ne u v us vs change old.head other,
        )
      ]
    ]
