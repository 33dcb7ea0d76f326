-- ===== src/Yaml.antt =====
-- utils/conf-yaml-loader.c: ConfYamlParse, from the events of the YAML parser to the tree of
-- ConfNodes. The parser (yaml/, a copy of libyaml) is the list of the events that it delivers;
-- where the list ends, yaml_parser_parse fails. The warnings on mangled names are left out.
pub mod Document
pub mod File
pub mod Parse
pub mod Total
pub mod Unlinked
use mmdd_pro.Common.{
  ℕ, zero, suc, ◌+◌, ◌/◌, ◌%◌, Bool, true, false, ◌&&◌, ◌||◌, List, [], ◌∷◌, Option, none, some,
  map, length, ltb, ◌==◌, if◌then◌else◌, Text, codes, text_eq, ℤ, pos, negsuc, minus_one,
}
use mmdd_pro.Conf.Node.{ConfNode, Fields, Forest, end, child, new_fields, insert_tail}

pub data Event : Type 0 where
  -- the %YAML directive, if there is one
  document_start : Option (ℕ × ℕ) → Event
  scalar : Text → Event
  sequence_start sequence_end mapping_start mapping_end stream_end other : Event

pub data ConfState : Type 0 where
  conf_key conf_val : ConfState

-- Mangle
unfoldable pub mangle : Text → Text
mangle = map (λ c. if c == b'_' then b'-' else c)

-- snprintf(…, "%d", n), by the digits from the last to the first; an index has at most ten.
decimal_onto : ℕ → ℕ → Text → Text
decimal_onto zero n out = out
decimal_onto (suc fuel) n out =
    let more = decimal_onto fuel (n / 10) ((b'0' + n % 10) ∷ out) in
    if ltb n 10 then (b'0' + n) ∷ out else more

unfoldable pub decimal : ℕ → Text
unfolding decimal_onto
decimal n = decimal_onto 10 n []

-- The position of the child that ConfNodeLookupChild returns.
unfoldable pub index_of : Forest → Text → Option ℕ
index_of end name = none
index_of (child n f head next) name =
    let rest : Option ℕ = elim (index_of next name) [ none ↦ none | some i ↦ some (suc i) ] in
    if text_eq n name then some 0 else rest

-- The position at the tail.
unfoldable pub forest_size : Forest → ℕ
forest_size end = 0
forest_size (child n f head next) = suc (forest_size next)

-- The variables of one call of ConfYamlParse: the fields and the children of `parent`, and `node`,
-- which is `parent` itself (`none`) or a child by its position.
pub record Loop : Type 0 where
  pub parent_name : Option Text
  pub parent : Fields
  pub head : Forest
  pub node : Option ℕ
  pub state : ConfState
  pub seq_idx : ℕ

unfoldable pub kid_at : Forest → ℕ → Option ConfNode
kid_at end i = none
kid_at (child n f h next) zero = some (record { name = some n; fields = f; head = h })
kid_at (child n f h next) (suc i) = kid_at next i

unfoldable pub put_kid : Forest → ℕ → Fields → Forest → Forest
put_kid end i g k = end
put_kid (child n f h next) zero g k = child n g k next
put_kid (child n f h next) (suc i) g k = child n f h (put_kid next i g k)

unfoldable pub parent_node : Loop → ConfNode
parent_node l = record { name = l.parent_name; fields = l.parent; head = l.head }

-- *node. A position is always that of a child.
unfoldable pub deref : Loop → ConfNode
unfolding parent_node kid_at
deref l = elim l.node [
  | none ↦ parent_node l
  | some i ↦ elim (kid_at l.head i) [ none ↦ parent_node l | some kid ↦ kid ]
]

-- A change of *node.
unfoldable pub store : Loop → Fields → Forest → Loop
unfolding put_kid
store l f h = elim l.node [
  | none ↦ record l { parent = f; head = h }
  | some i ↦ record l { head = put_kid l.head i f h }
]

-- The call of ConfYamlParse for a node.
unfoldable pub enter : ConfNode → Loop
enter n = record {
  parent_name = n.name;
  parent = n.fields;
  head = n.head;
  node = none;
  state = conf_key;
  seq_idx = 0;
}

-- A scalar in a sequence.
pub seq_step : Text → Loop → Loop
seq_step value l = record l {
  head = insert_tail l.head (decimal l.seq_idx) (record new_fields { val = some value }) end;
  seq_idx = l.seq_idx + 1;
}

pub is_group : Option Text → Bool
is_group none = false
is_group (some name) = text_eq name (codes "address-groups") || text_eq name (codes "port-groups")

-- A mapping in a sequence is named after its first key.
unfoldable pub name_parent : Text → Fields → Fields
unfolding mangle
name_parent value f =
    if f.is_seq
    then elim f.val [ none ↦ record f { val = some (mangle value) } | some v ↦ f ]
    else f

-- A scalar in the state CONF_KEY.
unfoldable pub key_step : Text → Loop → Loop
unfolding name_parent is_group
key_step value l =
    let name = if is_group l.parent_name then value else mangle value in
    let fresh : Loop = record l {
      parent = name_parent value l.parent;
      head = insert_tail l.head name new_fields end;
      node = some (forest_size l.head);
      state = conf_val;
    } in
    elim (index_of l.head value) [
      | none ↦ fresh
      | some i ↦ record l { parent = name_parent value l.parent; node = some i; state = conf_val }
    ]

-- A scalar in the state CONF_VAL.
unfoldable pub val_step : Text → Loop → Loop
val_step value l =
    let n = deref l in
    let f = if n.allow_override then record n.fields { val = some value } else n.fields in
    record (store l f n.head) { state = conf_key }

pub map_step : ConfState → Text → Loop → Loop
map_step conf_key value l = key_step value l
map_step conf_val value l = val_step value l

pub scalar_step : Bool → Text → Loop → Loop
unfolding map_step
scalar_step true value l = seq_step value l
scalar_step false value l = map_step l.state value l

-- The new node of a mapping in a sequence, before its children are read.
unfoldable pub seq_node : ℕ → ConfNode
seq_node i = record {
  name = some (decimal i);
  fields = record new_fields { is_seq = true };
  head = end;
}

-- After the nested call for *node, and after the one for a new node in a sequence.
unfoldable pub back : Loop → Fields → Forest → Loop
back l f h = record (store l f h) { state = conf_key }

unfoldable pub back_seq : Loop → Fields → Forest → Loop
back_seq l f h =
    record (store l (deref l).fields (insert_tail (deref l).head (decimal l.seq_idx) f h)) {
      state = conf_key;
      seq_idx = l.seq_idx + 1;
    }

-- The return value, the node that was filled and the events that are left.
pub record Parsed : Type 0 where
  pub ret : ℤ
  pub parent : Fields
  pub head : Forest
  pub events : List Event

unfoldable pub finish : ℤ → Loop → List Event → Parsed
finish ret l es = record { ret = ret; parent = l.parent; head = l.head; events = es }

pub version_ok : Option (ℕ × ℕ) → Bool
version_ok none = false
version_ok (some (major, minor)) = major == 1 && minor == 1

-- Behind a nested call: `if (ConfYamlParse(…) != 0) goto fail;`, or on with the loop.
pub resume : (List Event → Loop → Option Parsed) → List Event → Loop → ℤ → Option Parsed
resume next es l (pos zero) = next es l
resume next es l (pos (suc n)) = some (finish minus_one l es)
resume next es l (negsuc n) = some (finish minus_one l es)

pub after_call :
    (Fields → Forest → Loop) → (List Event → Loop → Option Parsed) → Option Parsed → Option Parsed
unfolding resume
after_call join next none = none
after_call join next (some sub) = resume next sub.events (join sub.parent sub.head) sub.ret

-- `none`: the fuel has run out.
pub conf_yaml_parse : ℕ → List Event → Bool → Loop → Option Parsed
conf_yaml_parse zero es inseq l = none
conf_yaml_parse (suc fuel) [] inseq l = some (finish minus_one l [])
conf_yaml_parse (suc fuel) (document_start version ∷ es) inseq l =
    let rest = conf_yaml_parse fuel es inseq l in
    if version_ok version then rest else some (finish minus_one l es)
conf_yaml_parse (suc fuel) (scalar value ∷ es) inseq l =
    conf_yaml_parse fuel es inseq (scalar_step inseq value l)
conf_yaml_parse (suc fuel) (sequence_start ∷ es) inseq l =
    after_call (back l) (λ es' l'. conf_yaml_parse fuel es' inseq l')
      (conf_yaml_parse fuel es true (enter (deref l)))
conf_yaml_parse (suc fuel) (sequence_end ∷ es) inseq l = some (finish (pos 0) l es)
conf_yaml_parse (suc fuel) (mapping_start ∷ es) true l =
    after_call (back_seq l) (λ es' l'. conf_yaml_parse fuel es' true l')
      (conf_yaml_parse fuel es false (enter (seq_node l.seq_idx)))
conf_yaml_parse (suc fuel) (mapping_start ∷ es) false l =
    after_call (back l) (λ es' l'. conf_yaml_parse fuel es' false l')
      (conf_yaml_parse fuel es false (enter (deref l)))
conf_yaml_parse (suc fuel) (mapping_end ∷ es) inseq l = some (finish (pos 0) l es)
conf_yaml_parse (suc fuel) (stream_end ∷ es) inseq l = some (finish (pos 0) l es)
conf_yaml_parse (suc fuel) (other ∷ es) inseq l = conf_yaml_parse fuel es inseq l

-- ConfYamlLoadFile and ConfYamlLoadString behind the opening of their input: the parser's events
-- are read into the root.
pub conf_yaml_load : List Event → ConfNode → Option Parsed
unfolding conf_yaml_parse enter
conf_yaml_load es root = conf_yaml_parse (suc (length es)) es false (enter root)
