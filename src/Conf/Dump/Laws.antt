-- ===== src/Conf/Dump/Laws.antt =====
-- The dump of a tree against its lookups (utils/conf.c).
use mmdd_pro.Common.{
  ℕ, ◌+◌, ◌≤◌, ◌<◌, ◌≡◌, refl, ap, ◌∙◌, true, false, List, [], ◌∷◌, ◌++◌, Option, none, some, arith,
  Text, text_eq, text_eq_iff, length, length-append, ltb, All,
}
use mmdd_pro.Conf.Node.{ConfNode, Fields, Forest, end, child, conf_node_lookup_child}
use mmdd_pro.Conf.Lookup.{done, tokens, walk, conf_get}
use mmdd_pro.Conf.Dump.{conf_print_name_array, Line, and_lines, conf_node_dump, conf_dump}
use mmdd_pro.Conf.Dump.Names.{IsName, join, tokens-join, print_name-join}

-- The node of a child.
abbrev pub node_of : Text → Fields → Forest → ConfNode
node_of n f head = record { name = some n; fields = f; head = head }

-- Every node below the names `above` has a name, no name twice among siblings; its full name fits
-- the buffer, and its level the array.
abbrev pub IsPlain : List Text → Forest → Type 0
IsPlain above end = Unit {0}
IsPlain above (child n f head next) =
    IsName n
    × (length (join (above ++ (n ∷ []))) ≤ 16383)
    × (length above < 128)
    × (conf_node_lookup_child next n ≡ none)
    × IsPlain (above ++ (n ∷ [])) head
    × IsPlain above next

abbrev pub node_count : Forest → ℕ
node_count end = 0
node_count (child n f head next) = 1 + (node_count head + node_count next)

-- The children in `part` are found in `all`.
abbrev Found : Forest → Forest → Type 0
Found all end = Unit {0}
Found all (child n f head next) =
    (conf_node_lookup_child all n ≡ some (node_of n f head)) × Found all next

Found-child :
    (n : Text) (f : Fields) (head all part : Forest)
    → conf_node_lookup_child part n ≡ none
    → Found all part
    → Found (child n f head all) part
unfolding conf_node_lookup_child
Found-child n f head all end missing h = tt
Found-child n f head all (child m g kids next) missing (here, h) =
    let apart : text_eq n m ≡ false = ground (arith, missing, text_eq_iff n m, text_eq_iff m n) in
    (rw apart here, Found-child n f head all next (ground (arith, missing)) h)

IsPlain-Found : (above : List Text) (head : Forest) → IsPlain above head → Found head head
unfolding conf_node_lookup_child
IsPlain-Found above end h = tt
IsPlain-Found above (child n f head next) (name, size, level, once, below, rest) = (
  ground (arith, text_eq_iff n n),
  Found-child n f head next next once (IsPlain-Found above next rest),
)

module _ (root : ConfNode) where
  abbrev at_path : List Text → Option ConfNode
  at_path [] = none
  at_path (t ∷ ts) = walk root.head t ts

  walk-append :
      (head : Forest) (t : Text) (ts : List Text) (m : Text) (node : ConfNode)
      → walk head t ts ≡ some node
      → walk head t (ts ++ (m ∷ [])) ≡ conf_node_lookup_child node.head m
  unfolding walk
  walk-append head t [] m node e = rw (e, walk) refl
  walk-append head t (u ∷ ts) m node e =
      go (conf_node_lookup_child head t) (λ k d. walk-append k.head u ts m node d) e
    where
      go :
          (found : Option ConfNode)
          → ((k : ConfNode)
              → walk k.head u ts ≡ some node
              → walk k.head u (ts ++ (m ∷ [])) ≡ conf_node_lookup_child node.head m)
          → (elim found as (λ _. Option ConfNode) [ none ↦ none | some k ↦ walk k.head u ts ])
            ≡ some node
          → (elim found as (λ _. Option ConfNode) [
            | none ↦ none
            | some k ↦ walk k.head u (ts ++ (m ∷ []))
          ])
            ≡ conf_node_lookup_child node.head m
      go none ih e = cc e
      go (some k) ih e = ih k e

  at_path-append :
      (ns : List Text) (m : Text) (node : ConfNode)
      → at_path ns ≡ some node
      → at_path (ns ++ (m ∷ [])) ≡ conf_node_lookup_child node.head m
  at_path-append [] m node e = cc e
  at_path-append (t ∷ ts) m node e = walk-append root.head t ts m node e

  conf_get-at_path :
      (key : Text) (ns : List Text) (node : ConfNode)
      → tokens key ≡ ns
      → at_path ns ≡ some node
      → conf_get root key ≡ done (some node.val)
  unfolding conf_get
  conf_get-at_path key [] node e there = cc there
  conf_get-at_path key (t ∷ ts) node e there = rw (e, there, conf_get) refl

  -- The children in `part` stand at their names below `above`.
  abbrev Reached : List Text → Forest → Type 0
  Reached above end = Unit {0}
  Reached above (child n f head next) =
      (at_path (above ++ (n ∷ [])) ≡ some (node_of n f head)) × Reached above next

  Reached-below :
      (above : List Text) (node : ConfNode) (part : Forest)
      → at_path above ≡ some node
      → Found node.head part
      → Reached above part
  Reached-below above node end e h = tt
  Reached-below above node (child n f head next) e (here, h) =
      (at_path-append above n node e ∙ here, Reached-below above node next e h)

  Reached-root : (part : Forest) → Found root.head part → Reached [] part
  unfolding walk
  Reached-root end h = tt
  Reached-root (child n f head next) (here, h) = (here, Reached-root next h)

  -- The line is read back by ConfGet.
  abbrev pub ReadsBack : Line → Type 0
  ReadsBack (key, val) = conf_get root key ≡ done (some val)

  abbrev Dumped : ℕ → Option (List Line) → Type 0
  Dumped n r = (ls : List Line) × (r ≡ some ls) × (length ls ≡ n) × All ReadsBack ls

  All-append : (ls ms : List Line) → All ReadsBack ls → All ReadsBack ms → All ReadsBack (ls ++ ms)
  All-append [] ms h k = k
  All-append (l ∷ ls) ms (first, h) k = (first, All-append ls ms h k)

  and_lines-Dumped :
      (a b : ℕ) (r r' : Option (List Line))
      → Dumped a r
      → Dumped b r'
      → Dumped (a + b) (and_lines r r')
  and_lines-Dumped a b r r' (ls, e, size, good) (ms, e', size', good') = (
    ls ++ ms,
    rw (e, e') refl,
    omega (arith, size, size', length-append {0} ls ms),
    All-append ls ms good good',
  )

  names-append :
      (above : List Text) (n : Text) → All IsName above → IsName n → All IsName (above ++ (n ∷ []))
  names-append [] n h k = (k, tt)
  names-append (m ∷ above) n (first, h) k = (first, names-append above n h k)

  conf_node_dump-Dumped :
      (above : List Text) (head : Forest)
      → All IsName above
      → IsPlain above head
      → Reached above head
      → Dumped (node_count head) (conf_node_dump none above head)
  unfolding conf_node_dump
  conf_node_dump-Dumped above end named plain h = ([], refl, refl, tt)
  conf_node_dump-Dumped above (child n f head next) named (name, size, level, once, below, rest)
        (here, h) =
      let names = above ++ (n ∷ []) in
      let all_named = names-append above n named name in
      let full = print_name-join names [] (omega (arith, size)) in
      let line : Dumped 1 (some ((conf_print_name_array [] names, f.val) ∷ [])) = (
        _,
        refl,
        refl,
        (
          ap (conf_get root) full
              ∙ conf_get-at_path (join names) names (node_of n f head) (tokens-join names all_named)
                  here,
          tt,
        ),
      ) in
      let inside =
        conf_node_dump-Dumped names head all_named below
          (Reached-below names (node_of n f head) head here (IsPlain-Found names head below)) in
      let others = conf_node_dump-Dumped above next named rest h in
      let in_array : ltb (length above) 128 ≡ true = ground (arith, level) in
      rw (in_array, conf_node_dump)
        (and_lines-Dumped 1 (node_count head + node_count next) _ _ line
          (and_lines-Dumped (node_count head) (node_count next) _ _ inside others))

  -- A tree whose nodes have names without a dot, no name twice among the children of a node, full names
  -- that fit the buffer of ConfPrintNameArray, and at most 128 levels: ConfDump prints one line for
  -- every node, and ConfGet of the name on a line finds the value on that line.
  pub conf_get-conf_dump :
      IsPlain [] root.head
      → (ls : List Line) × (conf_dump root ≡ some ls)
        × (length ls ≡ node_count root.head)
        × All ReadsBack ls
  unfolding conf_dump
  conf_get-conf_dump plain =
      conf_node_dump-Dumped [] root.head tt plain
        (Reached-root root.head (IsPlain-Found [] root.head plain))
