-- ===== src/Yaml/Unlinked.antt =====
-- ConfYamlParse (utils/conf-yaml-loader.c) never sets the `parent` of a node: ConfRemove of a
-- loaded node frees it without taking it out of the tree.
use mathlib.Core.Option.{some-injective}
use mmdd_pro.Common.{
  ℕ, zero, suc, ◌≡◌, refl, sym, subst, ◌⊎◌, inl, inr, Bool, true, false, List, [], ◌∷◌, Option,
  none, some, arith, length, Text, ℤ, pos, negsuc, Option-cases, Bool-cases, text_eq,
}
use mmdd_pro.Conf.Node.{
  ConfNode, Fields, Forest, end, child, new_fields, insert_tail, conf_node_lookup_child,
}
use mmdd_pro.Conf.Lookup.{walk, tokens, conf_get_node, done}
use mmdd_pro.Conf.Remove.{conf_remove, dangling}
use mmdd_pro.Yaml.{
  Event, document_start, scalar, sequence_start, sequence_end, mapping_start, mapping_end,
  stream_end, other, Loop, Parsed, mangle, ConfState, conf_key, conf_val, kid_at, put_kid, deref,
  store, enter, seq_step, name_parent, key_step, val_step, map_step, scalar_step, seq_node, back,
  back_seq, finish, version_ok, resume, after_call, conf_yaml_parse, conf_yaml_load,
}

-- No node of the tree has a parent.
abbrev pub Unlinked : Forest → Type 0
Unlinked end = Unit
Unlinked (child n f head next) = (f.has_parent ≡ false) × Unlinked head × Unlinked next

abbrev UnlinkedNode : ConfNode → Type 0
UnlinkedNode n = (n.has_parent ≡ false) × Unlinked n.head

insert_tail-Unlinked :
    (t : Forest) (name : Text) (f : Fields) (kids : Forest)
    → Unlinked t
    → f.has_parent ≡ false
    → Unlinked kids
    → Unlinked (insert_tail t name f kids)
unfolding insert_tail
insert_tail-Unlinked end name f kids u e k = (e, k, tt)
insert_tail-Unlinked (child n g h next) name f kids u e k =
    (u.0, u.1, insert_tail-Unlinked next name f kids u.2 e k)

put_kid-Unlinked :
    (t : Forest) (i : ℕ) (f : Fields) (kids : Forest)
    → Unlinked t
    → f.has_parent ≡ false
    → Unlinked kids
    → Unlinked (put_kid t i f kids)
unfolding put_kid
put_kid-Unlinked end i f kids u e k = tt
put_kid-Unlinked (child n g h next) zero f kids u e k = (e, k, u.2)
put_kid-Unlinked (child n g h next) (suc i) f kids u e k =
    (u.0, u.1, put_kid-Unlinked next i f kids u.2 e k)

kid_at-Unlinked :
    (t : Forest) (i : ℕ) (n : ConfNode) → Unlinked t → kid_at t i ≡ some n → UnlinkedNode n
unfolding kid_at
kid_at-Unlinked end i n u e = absurd (ground arith)
kid_at-Unlinked (child m f h next) zero n u e = subst UnlinkedNode (some-injective _ n e) (u.0, u.1)
kid_at-Unlinked (child m f h next) (suc i) n u e = kid_at-Unlinked next i n u.2 e

-- Of the node that a call fills.
abbrev UnlinkedLoop : Loop → Type 0
UnlinkedLoop l = (l.parent.has_parent ≡ false) × Unlinked l.head

deref-Unlinked : (l : Loop) → UnlinkedLoop l → UnlinkedNode (deref l)
unfolding deref
deref-Unlinked l u = elim (Option-cases l.node) [
  | inl e ↦ rw (e, deref) u
  | inr (i, e) ↦ elim (Option-cases (kid_at l.head i)) [
    | inl k ↦ rw (e, k, deref) u
    | inr (n, k) ↦ rw (e, k, deref) (kid_at-Unlinked l.head i n u.1 k)
  ]
]

store-Unlinked :
    (l : Loop) (f : Fields) (h : Forest)
    → UnlinkedLoop l
    → f.has_parent ≡ false
    → Unlinked h
    → UnlinkedLoop (store l f h)
unfolding store
store-Unlinked l f h u e k = elim (Option-cases l.node) [
  | inl n ↦ rw (n, store) (e, k)
  | inr (i, n) ↦ rw (n, store) (u.0, put_kid-Unlinked l.head i f h u.1 e k)
]

name_parent-has_parent :
    (v : Text) (f : Fields) → f.has_parent ≡ false → (name_parent v f).has_parent ≡ false
unfolding name_parent
name_parent-has_parent v f e = ground arith

key_step-Unlinked : (v : Text) (l : Loop) → UnlinkedLoop l → UnlinkedLoop (key_step v l)
unfolding key_step
key_step-Unlinked v l u = ground (
  arith,
  name_parent-has_parent v l.parent u.0,
  insert_tail-Unlinked l.head v new_fields end u.1 refl tt,
  insert_tail-Unlinked l.head (mangle v) new_fields end u.1 refl tt,
)

val_step-Unlinked : (v : Text) (l : Loop) → UnlinkedLoop l → UnlinkedLoop (val_step v l)
unfolding val_step
val_step-Unlinked v l u =
    store-Unlinked l _ _ u (ground (arith, deref-Unlinked l u)) (deref-Unlinked l u).1

scalar_step-Unlinked :
    (inseq : Bool) (v : Text) (l : Loop) → UnlinkedLoop l → UnlinkedLoop (scalar_step inseq v l)
unfolding scalar_step seq_step
scalar_step-Unlinked true v l u = (u.0, insert_tail-Unlinked l.head _ _ end u.1 refl tt)
scalar_step-Unlinked false v l u = go l.state
  where
    go : (s : ConfState) → UnlinkedLoop (map_step s v l)
    go conf_key = key_step-Unlinked v l u
    go conf_val = val_step-Unlinked v l u

abbrev UnlinkedResult : Option Parsed → Type 0
UnlinkedResult none = Unit
UnlinkedResult (some p) = (p.parent.has_parent ≡ false) × Unlinked p.head

after_call-Unlinked :
    (join : Fields → Forest → Loop) (next : List Event → Loop → Option Parsed) (r : Option Parsed)
    → UnlinkedResult r
    → ((f : Fields) (h : Forest) → f.has_parent ≡ false → Unlinked h → UnlinkedLoop (join f h))
    → ((es : List Event) (l : Loop) → UnlinkedLoop l → UnlinkedResult (next es l))
    → UnlinkedResult (after_call join next r)
unfolding after_call finish
after_call-Unlinked join next none u j n = tt
after_call-Unlinked join next (some sub) u j n = go sub.ret
  where
    go : (ret : ℤ) → UnlinkedResult (resume next sub.events (join sub.parent sub.head) ret)
    go (pos zero) = n _ _ (j _ _ u.0 u.1)
    go (pos (suc m)) = j _ _ u.0 u.1
    go (negsuc m) = j _ _ u.0 u.1

back-Unlinked :
    (l : Loop)
    → UnlinkedLoop l
    → (f : Fields) (h : Forest) → f.has_parent ≡ false
    → Unlinked h
    → UnlinkedLoop (back l f h)
unfolding back
back-Unlinked l u f h e k = store-Unlinked l f h u e k

back_seq-Unlinked :
    (l : Loop)
    → UnlinkedLoop l
    → (f : Fields) (h : Forest) → f.has_parent ≡ false
    → Unlinked h
    → UnlinkedLoop (back_seq l f h)
unfolding back_seq
back_seq-Unlinked l u f h e k =
    store-Unlinked l _ _ u (deref-Unlinked l u).0
      (insert_tail-Unlinked _ _ f h (deref-Unlinked l u).1 e k)

conf_yaml_parse-Unlinked :
    (fuel : ℕ) (es : List Event) (inseq : Bool) (l : Loop)
    → UnlinkedLoop l
    → UnlinkedResult (conf_yaml_parse fuel es inseq l)
unfolding conf_yaml_parse finish enter seq_node
conf_yaml_parse-Unlinked zero es inseq l u = tt
conf_yaml_parse-Unlinked (suc fuel) [] inseq l u = u
conf_yaml_parse-Unlinked (suc fuel) (document_start version ∷ es) inseq l u =
    elim (Bool-cases (version_ok version)) [
      | inl e ↦ rw e (conf_yaml_parse-Unlinked fuel es inseq l u)
      | inr e ↦ rw e u
    ]
conf_yaml_parse-Unlinked (suc fuel) (scalar value ∷ es) inseq l u =
    conf_yaml_parse-Unlinked fuel es inseq _ (scalar_step-Unlinked inseq value l u)
conf_yaml_parse-Unlinked (suc fuel) (sequence_start ∷ es) inseq l u =
    after_call-Unlinked _ _ _ (conf_yaml_parse-Unlinked fuel es true _ (deref-Unlinked l u))
      (back-Unlinked l u) (λ es' l' u'. conf_yaml_parse-Unlinked fuel es' inseq l' u')
conf_yaml_parse-Unlinked (suc fuel) (sequence_end ∷ es) inseq l u = u
conf_yaml_parse-Unlinked (suc fuel) (mapping_start ∷ es) true l u =
    after_call-Unlinked _ _ _ (conf_yaml_parse-Unlinked fuel es false _ (refl, tt))
      (back_seq-Unlinked l u) (λ es' l' u'. conf_yaml_parse-Unlinked fuel es' true l' u')
conf_yaml_parse-Unlinked (suc fuel) (mapping_start ∷ es) false l u =
    after_call-Unlinked _ _ _ (conf_yaml_parse-Unlinked fuel es false _ (deref-Unlinked l u))
      (back-Unlinked l u) (λ es' l' u'. conf_yaml_parse-Unlinked fuel es' false l' u')
conf_yaml_parse-Unlinked (suc fuel) (mapping_end ∷ es) inseq l u = u
conf_yaml_parse-Unlinked (suc fuel) (stream_end ∷ es) inseq l u = u
conf_yaml_parse-Unlinked (suc fuel) (other ∷ es) inseq l u =
    conf_yaml_parse-Unlinked fuel es inseq l u

lookup_child-Unlinked :
    (t : Forest) (name : Text) (n : ConfNode)
    → Unlinked t
    → conf_node_lookup_child t name ≡ some n
    → UnlinkedNode n
unfolding conf_node_lookup_child
lookup_child-Unlinked end name n u e = absurd (ground arith)
lookup_child-Unlinked (child m f h next) name n u e = elim (Bool-cases (text_eq m name)) [
  | inl same ↦
      let m' : ConfNode = record { name = some m; fields = f; head = h } in
      let found : some m' ≡ some n = ground arith in
      subst UnlinkedNode (some-injective m' n found) (u.0, u.1)
  | inr differs ↦ lookup_child-Unlinked next name n u.2 (ground arith)
]

walk-Unlinked :
    (t : Forest) (name : Text) (ts : List Text) (n : ConfNode)
    → Unlinked t
    → walk t name ts ≡ some n
    → UnlinkedNode n
unfolding walk
walk-Unlinked t name [] n u e = lookup_child-Unlinked t name n u e
walk-Unlinked t name (x ∷ xs) n u e = elim (Option-cases (conf_node_lookup_child t name)) [
  | inl missing ↦ absurd (ground arith)
  | inr (m, found) ↦
      walk-Unlinked m.head x xs n (lookup_child-Unlinked t name m u found).1 (ground arith)
]

Forest-cases :
    (t : Forest)
    → (t ≡ end)
      ⊎ ((n : Text) × (f : Fields) × (h : Forest) × (next : Forest) × (t ≡ child n f h next))
Forest-cases end = inl refl
Forest-cases (child n f h next) = inr (n, f, h, next, refl)

-- Whatever file was loaded into an empty root: if ConfGetNode finds a name in the loaded tree,
-- then ConfRemove of that name frees a node that stays in the tree.
pub conf_remove-conf_yaml_load :
    (es : List Event) (root : ConfNode) (name : Text) (p : Parsed) {node : ConfNode}
    → root.head ≡ end
    → root.has_parent ≡ false
    → conf_yaml_load es root ≡ some p
    → conf_get_node (record root { fields = p.parent; head = p.head }) name ≡ done (some node)
    → conf_remove (record root { fields = p.parent; head = p.head }) name ≡ dangling
unfolding conf_yaml_load enter conf_get_node conf_remove
conf_remove-conf_yaml_load es root name p {node} empty top loaded found = go (tokens name) refl
  where
    whole : UnlinkedResult (some p)
    whole = subst UnlinkedResult loaded (
        conf_yaml_parse-Unlinked (suc (length es)) es false (enter root)
          (top, subst Unlinked (sym empty) tt))

    go :
        (ts : List Text)
        → tokens name ≡ ts
        → conf_remove (record root { fields = p.parent; head = p.head }) name ≡ dangling
    go [] n = elim (Forest-cases p.head) [
      | inl e ↦ absurd (ground arith)
      | inr (c, f, h, x, e) ↦ absurd (ground arith)
    ]
    go (t ∷ ts) n = elim (Option-cases (walk p.head t ts)) [
      | inl missing ↦ absurd (ground arith)
      | inr (m, there) ↦ ground (arith, (walk-Unlinked p.head t ts m whole.1 there).0)
    ]
