-- ===== src/Config/Names.antt =====
-- ConfNodeNameCheck (main.c) in get_server_info and get_monitor_group_info: names are not repeated.
use mmdd_pro.Common.{
  ℕ, ◌+◌, ◌≤◌, ◌<◌, ◌≡◌, refl, ap, subst, inl, inr, List, [], ◌∷◌, map, Option, none, some, arith,
  if◌then◌else◌, Text, codes, text_eq, text_eq_iff, ltb, length, Bool-cases, Option-cases,
}
use mmdd_pro.Conf.Node.{ConfNode, Fields, Forest, end, child, conf_node_lookup_child}
use mmdd_pro.Conf.Lookup.{tokens, walk, conf_get_node}
use mmdd_pro.Pipeline.State.{Server}
use mmdd_pro.Config.{
  Outcome, fault, ok, count_below, count_all, conf_node_name_check, taken_name, at_fault, Ensures,
  at_ok, Ensures-bind, ensured, >>=-eq-ok,
}
use mmdd_pro.Config.Servers.{children_of}
use mmdd_pro.Config.Groups.Accepted.{group_info-IsGroupInfo}
use mmdd_pro.Config.Groups.{GroupInfo, group_info, group_infos, get_monitor_group_info}

-- How often a name is in a list.
abbrev pub count_text : Text → List Text → ℕ
count_text name [] = 0
count_text name (x ∷ xs) = (if text_eq x name then 1 else 0) + count_text name xs

abbrev has_value : Option Text → Text → ℕ
has_value none name = 0
has_value (some v) name = if text_eq v name then 1 else 0

-- How many children have the name for their value, and how many grandchildren.
unfoldable pub count_values : Forest → Text → ℕ
count_values end name = 0
count_values (child n f head next) name = has_value f.val name + count_values next name

unfoldable pub count_below_all : Forest → Text → ℕ
count_below_all end name = 0
count_below_all (child n f head next) name = count_values head name + count_below_all next name

count_below-eq :
    (head : Forest) (name : Text) (num m : ℕ)
    → count_below head name num ≡ ok m
    → num ≤ 1
    → (m ≡ num + count_values head name) × (m ≤ 1)
unfolding count_below count_values
count_below-eq end name num m e h = ground arith
count_below-eq (child n f head next) name num m e h =
    ground (arith, count_below-eq next name num m, count_below-eq next name (num + 1) m)

count_all-eq :
    (head : Forest) (name : Text) (num m : ℕ)
    → count_all head name num ≡ ok m
    → num ≤ 1
    → (m ≡ num + count_below_all head name) × (m ≤ 1)
unfolding count_all count_below_all
count_all-eq end name num m e h = ground arith
count_all-eq (child n f head next) name num m e h =
    let (more, at, rest) =
      >>=-eq-ok (count_below head name num) (λ more. count_all next name more) e in
    let (same, small) = count_below-eq head name num more at h in
    let (total, bound) = count_all-eq next name more m rest small in (omega arith, bound)

-- A name that passes the check is the value of at most one grandchild of the root.
conf_node_name_check-le :
    (root : ConfNode) (name : Text) {u : Unit {0}}
    → conf_node_name_check root (some name) ≡ ok u
    → count_below_all root.head name ≤ 1
unfolding conf_node_name_check
conf_node_name_check-le root name e =
    let (m, counted, rest) = >>=-eq-ok (count_all root.head name 0) (λ num. ok tt) e in
    let (same, small) = count_all-eq root.head name 0 m counted (omega arith) in omega arith

lookup_child-le :
    (top : Forest) (key name : Text) (node : ConfNode)
    → conf_node_lookup_child top key ≡ some node
    → count_values node.head name ≤ count_below_all top name
unfolding conf_node_lookup_child count_below_all
lookup_child-le end key name node e = absurd (ground arith)
lookup_child-le (child n f head next) key name node e = elim (Bool-cases (text_eq n key)) [
  | inl same ↦ ground (arith, ap (λ (o : Option ConfNode). at_head o) e)
  | inr other ↦ ground (arith, lookup_child-le next key name node)
]
  where
    at_head : Option ConfNode → ℕ
    at_head none = 0
    at_head (some m) = count_values m.head name

children_of-eq :
    (root : ConfNode) (key : Text)
    → tokens key ≡ key ∷ []
    → children_of root key ≡ (elim (conf_node_lookup_child root.head key) as (λ _. Outcome Forest) [
      | none ↦ fault
      | some node ↦ ok node.head
    ])
unfolding conf_get_node walk
children_of-eq root key one =
    rw (one, children_of, conf_get_node)
      (elim (Option-cases (conf_node_lookup_child root.head key)) [
        | inl e ↦ rw e refl
        | inr (node, e) ↦ rw e refl
      ])

children_of-le :
    (root : ConfNode) (key name : Text) (head : Forest)
    → tokens key ≡ key ∷ []
    → children_of root key ≡ ok head
    → count_values head name ≤ count_below_all root.head name
children_of-le root key name head one e =
    elim (Option-cases (conf_node_lookup_child root.head key)) [
      | inl none_there ↦ absurd (ground (arith, children_of-eq root key one))
      | inr (node, there) ↦
          ground (arith, children_of-eq root key one, lookup_child-le root.head key name node)
    ]

-- What the loop over the children of one node makes sure of, with the names in the table that it
-- fills: they are the values of the children, and each has passed the check.
record Named (root : ConfNode) (head : Forest) (names : List Text) : Type 0 where
  counts : (name : Text) → count_text name names ≡ count_values head name
  passed : (name : Text) → 0 < count_text name names → count_below_all root.head name ≤ 1

Named-cons :
    (root : ConfNode) (n name : Text) (f : Fields) (head next : Forest) (names : List Text)
    → f.val ≡ some name
    → count_below_all root.head name ≤ 1
    → Named root next names
    → Named root (child n f head next) (name ∷ names)
unfolding count_values
Named-cons root n name f head next names e h d = record {
  counts = λ other. ground (arith, d.counts other);
  passed = λ other some_there. elim (Bool-cases (text_eq name other)) [
    | inl same ↦ subst (λ t. count_below_all root.head t ≤ 1) ((text_eq_iff name other).0 same) h
    | inr away ↦ d.passed other (ground arith)
  ];
}

Named-repetition :
    (root : ConfNode) (key : Text) (head : Forest) (names : List Text)
    → tokens key ≡ key ∷ []
    → children_of root key ≡ ok head
    → Named root head names
    → (name : Text) → count_text name names ≤ 1
Named-repetition root key head names one e d name =
    ground (arith, d.counts name, d.passed name, children_of-le root key name head one e)

-- A name that both loops take.
abbrev Taken : ConfNode → Option Text → Text → Type 0
Taken root val name = (val ≡ some name) × (count_below_all root.head name ≤ 1)

taken_name-Taken :
    (root : ConfNode) (val : Option Text) → Ensures (Taken root val) (taken_name root val)
unfolding taken_name conf_node_name_check
taken_name-Taken root none = at_fault
taken_name-Taken root (some v) = Ensures-bind (conf_node_name_check root (some v)) _ λ u e.
    elim (Bool-cases (ltb (length v) 32)) [
      | inl fits ↦ rw fits (at_ok v (refl, conf_node_name_check-le root v e))
      | inr over ↦ rw over at_fault
    ]

group_infos-Named :
    (root : ConfNode) (ss : List Server) (head : Forest)
    → Ensures (λ infos. Named root head (map (λ i. i.group.name) infos)) (group_infos root ss head)
unfolding group_infos count_values
group_infos-Named root ss end =
    at_ok [] (record { counts = λ name. refl; passed = λ name h. absurd (omega arith) })
group_infos-Named root ss (child n f head next) =
    Ensures-bind (group_info root ss f.val head) _ λ info at.
      Ensures-bind (group_infos root ss next) _ λ rest there.
        let (val, once) =
          ensured (taken_name-Taken root f.val)
            (ensured (group_info-IsGroupInfo root ss f.val head) at).1 in
        at_ok (info ∷ rest) (
          Named-cons root n info.group.name f head next _ val once
            (ensured (group_infos-Named root ss next) there))

-- If get_monitor_group_info succeeds, then no two monitor groups have the same name.
pub get_monitor_group_info-names :
    (root : ConfNode) (ss : List Server) {infos : List GroupInfo}
    → get_monitor_group_info root ss ≡ ok infos
    → (name : Text) → count_text name (map (λ i. i.group.name) infos) ≤ 1
unfolding get_monitor_group_info tokens
get_monitor_group_info-names root ss {infos} e name =
    let key = codes "monitor-group" in
    let (head, at, filled) =
      >>=-eq-ok (children_of root key) (λ head. group_infos root ss head) e in
    Named-repetition root key head _ refl at (ensured (group_infos-Named root ss head) filled) name
