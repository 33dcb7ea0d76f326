-- ===== src/Util/Split/Laws.antt =====
-- The pieces of str_split_func (utils/utils.c): they are the string cut at every delimiter.
use mmdd_pro.Common.{
  ℕ, ◌+◌, ◌-◌, ◌<◌, ◌≡◌, ◌≢◌, refl, sym, ap, ◌∙◌, inl, inr, List, [], ◌∷◌, ◌++◌, arith, length,
  ◌==◌, if◌then◌else◌, Text, All, Bool-cases, ==_iff,
}
use mmdd_pro.Util.Split.{count_delimiters, cons_first, cut, str_split_func}

-- The pieces of a text between the delimiters.
abbrev pub pieces : ℕ → Text → List Text
pieces delimiter [] = [] ∷ []
pieces delimiter (c ∷ t) =
    if delimiter == c then [] ∷ pieces delimiter t else cons_first c (pieces delimiter t)

-- The pieces with the delimiter between them.
abbrev pub join : ℕ → List Text → Text
join delimiter [] = []
join delimiter (p ∷ []) = p
join delimiter (p ∷ q ∷ ps) = p ++ (delimiter ∷ join delimiter (q ∷ ps))

delimiters : ℕ → Text → ℕ
delimiters delimiter [] = 0
delimiters delimiter (c ∷ t) = (if delimiter == c then 1 else 0) + delimiters delimiter t

count_delimiters_lem : (d : ℕ) (t : Text) (n : ℕ) → count_delimiters d t n ≡ n + delimiters d t
unfolding count_delimiters delimiters
count_delimiters_lem d [] n = omega arith
count_delimiters_lem d (c ∷ t) n =
    ground (arith, count_delimiters_lem d t n, count_delimiters_lem d t (n + 1))

pieces-ne-nil : (d : ℕ) (t : Text) → pieces d t ≢ []
pieces-ne-nil d [] = ground arith
pieces-ne-nil d (c ∷ t) = ground (arith, pieces-ne-nil d t)

pieces_of_clean : (d : ℕ) (t : Text) → delimiters d t ≡ 0 → pieces d t ≡ t ∷ []
unfolding delimiters
pieces_of_clean d [] h = refl
pieces_of_clean d (c ∷ t) h = ground (arith, pieces_of_clean d t)

cut-pieces : (d : ℕ) (t : Text) (n : ℕ) → n ≡ 1 + delimiters d t → cut d t n ≡ pieces d t
unfolding cut delimiters
cut-pieces d [] n h = refl
cut-pieces d (c ∷ t) n h =
    ground (arith, cut-pieces d t n, cut-pieces d t (n - 1), pieces_of_clean d t)

length-pieces : (d : ℕ) (t : Text) → length (pieces d t) ≡ 1 + delimiters d t
unfolding delimiters
length-pieces d [] = omega arith
length-pieces d (c ∷ t) = elim (Bool-cases (d == c)) [
  | inl e ↦ rw e (omega (arith, length-pieces d t))
  | inr e ↦ rw e (omega (arith, first d c t, length-pieces d t))
]
  where
    grow : (c : ℕ) (ps : List Text) → ps ≢ [] → length (cons_first c ps) ≡ length ps
    grow c [] h = absurd (h refl)
    grow c (p ∷ ps) h = refl

    first : (d c : ℕ) (t : Text) → length (cons_first c (pieces d t)) ≡ length (pieces d t)
    first d c t = grow c (pieces d t) (pieces-ne-nil d t)

join-cons_first : (d c : ℕ) (ps : List Text) → ps ≢ [] → join d (cons_first c ps) ≡ c ∷ join d ps
join-cons_first d c [] h = absurd (h refl)
join-cons_first d c (p ∷ []) h = refl
join-cons_first d c (p ∷ q ∷ ps) h = refl

join-nil_cons : (d : ℕ) (ps : List Text) → ps ≢ [] → join d ([] ∷ ps) ≡ d ∷ join d ps
join-nil_cons d [] h = absurd (h refl)
join-nil_cons d (p ∷ ps) h = refl

join-pieces : (d : ℕ) (t : Text) → join d (pieces d t) ≡ t
join-pieces d [] = refl
join-pieces d (c ∷ t) = elim (Bool-cases (d == c)) [
  | inl e ↦ rw e (
      join-nil_cons d (pieces d t) (pieces-ne-nil d t)
      ∙ ap (◌∷◌ d) (join-pieces d t)
      ∙ ap (λ x. x ∷ t) ((==_iff d c).0 e))
  | inr e ↦
      rw e (join-cons_first d c (pieces d t) (pieces-ne-nil d t) ∙ ap (◌∷◌ c) (join-pieces d t))
]

-- A text without the delimiter.
abbrev pub IsPiece : ℕ → Text → Type 0
IsPiece d t = All (λ c. c ≢ d) t

cons_first-All :
    (d c : ℕ) (ps : List Text) → c ≢ d → All (IsPiece d) ps → All (IsPiece d) (cons_first c ps)
cons_first-All d c [] h a = ((h, tt), tt)
cons_first-All d c (p ∷ ps) h a = ((h, a.0), a.1)

pieces-All : (d : ℕ) (t : Text) → All (IsPiece d) (pieces d t)
pieces-All d [] = (tt, tt)
pieces-All d (c ∷ t) = elim (Bool-cases (d == c)) [
  | inl e ↦ rw e (tt, pieces-All d t)
  | inr e ↦ rw e (cons_first-All d c (pieces d t) (ground arith) (pieces-All d t))
]

pub pieces-piece : (d : ℕ) (p : Text) → IsPiece d p → pieces d p ≡ p ∷ []
pieces-piece d [] h = refl
pieces-piece d (c ∷ p) h = ground (arith, pieces-piece d p)

pieces-append_delimiter :
    (d : ℕ) (p t : Text) → IsPiece d p → pieces d (p ++ (d ∷ t)) ≡ p ∷ pieces d t
pieces-append_delimiter d [] t h = ground arith
pieces-append_delimiter d (c ∷ p) t h = ground (arith, pieces-append_delimiter d p t)

pieces-join : (d : ℕ) (ps : List Text) → ps ≢ [] → All (IsPiece d) ps → pieces d (join d ps) ≡ ps
pieces-join d [] h a = absurd (h refl)
pieces-join d (p ∷ []) h a = pieces-piece d p a.0
pieces-join d (p ∷ q ∷ ps) h a =
    pieces-append_delimiter d p (join d (q ∷ ps)) a.0
    ∙ ap (◌∷◌ p) (pieces-join d (q ∷ ps) (λ e. cc) a.1)

pub str_split_func-pieces :
    (src : Text) (d : ℕ) → src ≢ [] → (str_split_func src d).str_array ≡ pieces d src
unfolding str_split_func
str_split_func-pieces [] d h = absurd (h refl)
str_split_func-pieces (c ∷ t) d h = cut-pieces d (c ∷ t) _ (count_delimiters_lem d (c ∷ t) 1)

pub count-length :
    (src : Text) (d : ℕ) → (str_split_func src d).count ≡ length (str_split_func src d).str_array
unfolding str_split_func
count-length [] d = refl
count-length (c ∷ t) d =
    count_delimiters_lem d (c ∷ t) 1
    ∙ sym (length-pieces d (c ∷ t))
    ∙ ap length (sym (cut-pieces d (c ∷ t) _ (count_delimiters_lem d (c ∷ t) 1)))

-- The pieces of a nonempty string hold no delimiter, give the string back when joined by the
-- delimiter, and are as many as `count` says.
pub str_split_func-join :
    (src : Text) (d : ℕ)
    → src ≢ []
    → let split = str_split_func src d in
      (join d split.str_array ≡ src)
      × All (IsPiece d) split.str_array
      × (split.count ≡ length split.str_array)
str_split_func-join src d h = rw (str_split_func-pieces src d h) (
  join-pieces d src,
  pieces-All d src,
  count-length src d ∙ ap length (str_split_func-pieces src d h),
)

-- Splitting undoes joining: pieces without the delimiter, joined to a nonempty string, come back.
pub str_split_func_of_join :
    (ps : List Text) (d : ℕ)
    → ps ≢ []
    → join d ps ≢ []
    → All (IsPiece d) ps
    → (str_split_func (join d ps) d).str_array ≡ ps
str_split_func_of_join ps d h k a = str_split_func-pieces (join d ps) d k ∙ pieces-join d ps h a

pub length-str_split_func_pos :
    (c : ℕ) (t : Text) (d : ℕ) → 0 < length (str_split_func (c ∷ t) d).str_array
length-str_split_func_pos c t d = omega (
  arith,
  ap length (str_split_func-pieces (c ∷ t) d (λ e. ground arith)),
  length-pieces d (c ∷ t),
)
