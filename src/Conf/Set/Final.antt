-- ===== src/Conf/Set/Final.antt =====
-- A node of the configuration (utils/conf.c) that may not be overridden, while others are set.
use mmdd_pro.Common.{
  ℕ, ◌≡◌, ◌≢◌, refl, sym, ap, subst, ◌∙◌, inl, inr, ◌⊎◌, Bool, false, List, [], ◌∷◌, some, arith,
  Text, text_eq, text_eq_iff, Bool-cases, Option-cases,
}
use mmdd_pro.Conf.Node.{ConfNode, Fields}
use mmdd_pro.Conf.Lookup.{Run, fault, done, tokens, walk, conf_get_node, conf_get}
use mmdd_pro.Conf.Set.{conf_set_tokens, conf_set}
use mmdd_pro.Conf.Set.Laws.{fields_of}
use mmdd_pro.Conf.Set.Get.{fields-conf_set_tokens, fields-conf_set_tokens_ne}

-- Calls of ConfSet, one behind the other, with their names, values and permissions to override.
unfoldable pub conf_sets : List (Text × Text × Bool) → ConfNode → Run ConfNode
conf_sets [] root = done root
conf_sets ((name, val, allow) ∷ calls) root = elim (conf_set root name val allow) [
  | fault ↦ fault
  | done (_, root') ↦ conf_sets calls root'
]

-- The node of these tokens has this value and may not be overridden.
abbrev IsFinal : Text → List Text → Text → ConfNode → Type 0
IsFinal t ts val root =
    (f : Fields) × (fields_of (walk root.head t ts) ≡ some f)
    × (f.val ≡ some val)
    × (f.allow_override ≡ false)

same_or_not : (xs ys : List Text) → (xs ≡ ys) ⊎ (xs ≢ ys)
same_or_not [] [] = inl refl
same_or_not [] (y ∷ ys) = inr (λ e. cc)
same_or_not (x ∷ xs) [] = inr (λ e. cc)
same_or_not (x ∷ xs) (y ∷ ys) = both (same_or_not xs ys)
  where
    both : (xs ≡ ys) ⊎ (xs ≢ ys) → (x ∷ xs ≡ y ∷ ys) ⊎ (x ∷ xs ≢ y ∷ ys)
    both (inr other) = inr (λ e. other (cc))
    both (inl same) = elim (Bool-cases (text_eq x y)) [
      | inl e ↦ inl (λ i. ((text_eq_iff x y).0 e) i ∷ same i)
      | inr ne ↦ inr (λ e. ground (arith, text_eq_iff x y))
    ]

-- The tokens of a node that is final are refused.
refused :
    (t : Text) (ts : List Text) (val other : Text) (allow : Bool) (root : ConfNode)
    → IsFinal t ts val root
    → conf_set_tokens root.head t ts other allow ≡ (0, root.head)
unfolding conf_set_tokens
refused t ts val other allow root (f, there, has, final) =
    elim (Option-cases (walk root.head t ts)) [
      | inl missing ↦ absurd (ground arith)
      | inr (node, found) ↦ ground arith
    ]

step-IsFinal :
    (t : Text) (ts : List Text) (val name v : Text) (allow : Bool) (r : ℕ) (root root' : ConfNode)
    → conf_set root name v allow ≡ done (r, root')
    → IsFinal t ts val root
    → IsFinal t ts val root'
unfolding conf_set
step-IsFinal t ts val name v allow r root root' e final = go (tokens name) refl
  where
    moved :
        {u : Text} {us : List Text}
        → root'.head ≡ (conf_set_tokens root.head u us v allow).1
        → u ∷ us ≢ t ∷ ts
        → IsFinal t ts val root
        → IsFinal t ts val root'
    moved {u} {us} head other (f, there, has, fixed) = elim (Option-cases (walk root.head t ts)) [
      | inl missing ↦ absurd (ground arith)
      | inr (node, found) ↦ (
        f,
        ap (λ h. fields_of (walk h t ts)) head
            ∙ fields-conf_set_tokens_ne u t us ts v allow root.head node other found
            ∙ sym (ap fields_of found)
            ∙ there,
        has,
        fixed,
      )
    ]

    go : (us : List Text) → tokens name ≡ us → IsFinal t ts val root'
    go [] n = absurd (ground arith)
    go (u ∷ us) n =
        let head : root'.head ≡ (conf_set_tokens root.head u us v allow).1 = ground arith in
        elim (same_or_not (u ∷ us) (t ∷ ts)) [
          | inl same ↦
              let p : u ≡ t = cc in
              let q : us ≡ ts = cc in
              let kept : root'.head ≡ root.head =
                head ∙ ground (arith, p, q, refused t ts val v allow root final) in
              subst
                (λ h.
                  (f : Fields) × (fields_of (walk h t ts) ≡ some f)
                  × (f.val ≡ some val)
                  × (f.allow_override ≡ false))
                (sym kept) final
          | inr other ↦ moved head other final
        ]

sets-IsFinal :
    (t : Text) (ts : List Text) (val : Text) (calls : List (Text × Text × Bool)) (root : ConfNode)
    {root' : ConfNode}
    → conf_sets calls root ≡ done root'
    → IsFinal t ts val root
    → IsFinal t ts val root'
unfolding conf_sets
sets-IsFinal t ts val [] root {root'} e final =
    let same : root ≡ root' = cc in subst (IsFinal t ts val) same final
sets-IsFinal t ts val ((name, v, allow) ∷ calls) root {root'} e final =
    go (λ u gives f. sets-IsFinal t ts val calls u gives f) (conf_set root name v allow) refl e
  where
    go :
        ((u : ConfNode)
          → conf_sets calls u ≡ done root'
          → IsFinal t ts val u
          → IsFinal t ts val root')
        → (out : Run (ℕ × ConfNode)) → conf_set root name v allow ≡ out
        → elim out as (λ _. Run ConfNode) [ fault ↦ fault | done (_, u) ↦ conf_sets calls u ]
          ≡ done root'
        → IsFinal t ts val root'
    go rest fault gives f = absurd (ground arith)
    go rest (done (r, u)) gives f =
        rest u f (step-IsFinal t ts val name v allow r root u gives final)

-- A node that was set without permission to override keeps its value, whatever calls of ConfSet follow,
-- of this and of other names, as long as each name has a token: ConfGet gives the value, and
-- ConfSet of the name returns 0 and leaves the tree as it is.
pub conf_set_final :
    (root : ConfNode) (name val other : Text) (allow : Bool) (calls : List (Text × Text × Bool))
    {first last : ConfNode}
    → conf_set root name val false ≡ done (1, first)
    → conf_sets calls first ≡ done last
    → (conf_get last name ≡ done (some (some val)))
      × (conf_set last name other allow ≡ done (0, last))
unfolding conf_set conf_get conf_get_node
conf_set_final root name val other allow calls {first} {last} e rest = go (tokens name) refl
  where
    go :
        (ts : List Text)
        → tokens name ≡ ts
        → (conf_get last name ≡ done (some (some val)))
          × (conf_set last name other allow ≡ done (0, last))
    go [] n = absurd (ground arith)
    go (t ∷ ts) n =
        let set_once : IsFinal t ts val first =
          fields-conf_set_tokens t ts val false root.head first.head (ground arith) in
        let final : IsFinal t ts val last = sets-IsFinal t ts val calls first rest set_once in
        (
          ground (arith, n, final.1, final.2),
          ground (arith, n, refused t ts val other allow last final),
        )
