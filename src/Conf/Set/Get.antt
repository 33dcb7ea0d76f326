-- ===== src/Conf/Set/Get.antt =====
-- ConfSet against ConfGet of utils/conf.c.
use mmdd_pro.Common.{
  ℕ, ◌≡◌, ◌≢◌, refl, sym, ◌∙◌, inl, inr, Bool, List, [], ◌∷◌, Option, some, arith, Text, text_eq,
  text_eq_iff, Bool-cases, Option-cases,
}
use mmdd_pro.Conf.Node.{ConfNode, Fields, Forest}
use mmdd_pro.Conf.Lookup.{done, tokens, walk, conf_get_node, conf_get}
use mmdd_pro.Conf.Set.{put_value, linked_fields, set_last, create_at, conf_set_tokens, conf_set}
use mmdd_pro.Conf.Set.Laws.{
  fields_of, set_at-create_at, fields-create_at, create_at-frame, create_at-frame_ne,
}

-- What a successful ConfSet leaves at its path.
pub fields-conf_set_tokens :
    (t : Text) (ts : List Text) (val : Text) (allow : Bool) (head after : Forest)
    → conf_set_tokens head t ts val allow ≡ (1, after)
    → (f : Fields) × (fields_of (walk after t ts) ≡ some f)
      × (f.val ≡ some val)
      × (f.allow_override ≡ allow)
unfolding conf_set_tokens set_last
fields-conf_set_tokens t ts val allow head after e = elim (Option-cases (walk head t ts)) [
  | inl missing ↦ (
    put_value val allow linked_fields,
    ground (arith, fields-create_at t ts (set_last val allow) head),
    refl,
    refl,
  )
  | inr (node, found) ↦ (
    put_value val allow node.fields,
    ground (
      arith,
      fields-create_at t ts (put_value val allow) head,
      set_at-create_at t ts (put_value val allow) head node,
    ),
    refl,
    refl,
  )
]

-- If ConfSet returns 1, then ConfGet of the same name gives the value.
pub conf_get-conf_set :
    (root : ConfNode) (name val : Text) (allow : Bool) {root' : ConfNode}
    → conf_set root name val allow ≡ done (1, root')
    → conf_get root' name ≡ done (some (some val))
unfolding conf_set conf_get conf_get_node
conf_get-conf_set root name val allow {root'} e = go (tokens name) refl
  where
    go : (ts : List Text) → tokens name ≡ ts → conf_get root' name ≡ done (some (some val))
    go [] n = ground arith
    go (t ∷ ts) n = ground (arith, fields-conf_set_tokens t ts val allow root.head root'.head)

frame :
    (t u : Text) (ts us : List Text) (change : Fields → Fields) (head : Forest) (node : ConfNode)
    → t ∷ ts ≢ u ∷ us
    → walk head u us ≡ some node
    → fields_of (walk (create_at head t ts change) u us) ≡ some node.fields
frame t u ts us change head node ne e = elim (Bool-cases (text_eq u t)) [
  | inl same ↦
      let p = (text_eq_iff u t).0 same in
      ground (arith, p, create_at-frame ts us t change head node)
  | inr other ↦ ground (arith, create_at-frame_ne t u ts us change head other)
]

pub fields-conf_set_tokens_ne :
    (t u : Text) (ts us : List Text) (val : Text) (allow : Bool) (head : Forest) (node : ConfNode)
    → t ∷ ts ≢ u ∷ us
    → walk head u us ≡ some node
    → fields_of (walk (conf_set_tokens head t ts val allow).1 u us) ≡ some node.fields
unfolding conf_set_tokens
fields-conf_set_tokens_ne t u ts us val allow head node ne e =
    elim (Option-cases (walk head t ts)) [
      | inl missing ↦ ground (arith, frame t u ts us (set_last val allow) head node)
      | inr (old, found) ↦ ground (
        arith,
        frame t u ts us (put_value val allow) head node,
        set_at-create_at t ts (put_value val allow) head old,
      )
    ]

-- ConfSet leaves the value of every other node alone: what ConfGet gave for a name with other
-- tokens, if it found that, it gives afterwards.
pub conf_get-conf_set_ne :
    (root : ConfNode) (name other val : Text) (allow : Bool) (r : ℕ) {root' : ConfNode}
    {old : Option Text}
    → conf_set root name val allow ≡ done (r, root')
    → tokens name ≢ tokens other
    → conf_get root other ≡ done (some old)
    → conf_get root' other ≡ done (some old)
unfolding conf_set conf_get conf_get_node
conf_get-conf_set_ne root name other val allow r {root'} {old} e ne h =
    go (tokens name) (tokens other) refl refl
  where
    go :
        (ts us : List Text)
        → tokens name ≡ ts
        → tokens other ≡ us
        → conf_get root' other ≡ done (some old)
    go [] us n m = ground arith
    go (t ∷ ts) [] n m = ground arith
    go (t ∷ ts) (u ∷ us) n m = elim (Option-cases (walk root.head u us)) [
      | inl missing ↦ ground arith
      | inr (node, found) ↦ ground (
        arith,
        fields-conf_set_tokens_ne t u ts us val allow root.head node (λ e. ne (n ∙ e ∙ sym m))
            found,
      )
    ]
