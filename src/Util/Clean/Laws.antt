-- ===== src/Util/Clean/Laws.antt =====
-- clean_string (utils/utils.c) cuts off the blanks at both ends.
use mmdd_pro.Common.{
  ℕ, zero, suc, ◌+◌, ◌-◌, ◌≤◌, ◌<◌, ◌≡◌, refl, sym, ap, subst, ◌∙◌, inl, inr, true, false, [], ◌∷◌,
  some, arith, length, length-take, take, drop, get_elem?, ltb, ◌==◌, if◌then◌else◌, Text,
  Bool-cases,
}
use mmdd_pro.Util.Paths.{chop}
use mmdd_pro.Util.Clean.{is_blank, find_start, blank_at, find_stop, clean_string}

-- A text without the blanks at its beginning, and their number.
unfoldable pub trim_start : Text → Text
trim_start [] = []
trim_start (c ∷ t) = elim (is_blank c) [ true ↦ trim_start t | false ↦ c ∷ t ]

unfoldable leading : Text → ℕ
leading [] = 0
leading (c ∷ t) = elim (is_blank c) [ true ↦ suc (leading t) | false ↦ 0 ]

find_start_stuck : (t : Text) (p start : ℕ) → start < p → find_start p start t ≡ start
unfolding find_start
find_start_stuck [] p start h = refl
find_start_stuck (c ∷ t) p start h =
    ap (λ s. find_start (p + 1) s t) (ground (arith, h))
    ∙ find_start_stuck t (p + 1) start (omega (arith, h))

find_start-leading : (t : Text) (p : ℕ) → find_start p p t ≡ p + leading t
unfolding find_start leading
find_start-leading [] p = omega arith
find_start-leading (c ∷ t) p = elim (Bool-cases (is_blank c)) [
  | inl blank ↦
      ap (λ s. find_start (p + 1) s t) (ground (arith, blank))
      ∙ find_start-leading t (p + 1)
      ∙ ground (arith, blank)
  | inr other ↦
      ap (λ s. find_start (p + 1) s t) (ground (arith, other))
      ∙ find_start_stuck t (p + 1) p (omega arith)
      ∙ ground (arith, other)
]

drop-leading : (t : Text) → drop (leading t) t ≡ trim_start t
unfolding leading trim_start
drop-leading [] = refl
drop-leading (c ∷ t) = elim (Bool-cases (is_blank c)) [
  | inl blank ↦ rw (blank, leading, trim_start, drop) (drop-leading t)
  | inr other ↦ rw (other, leading, trim_start, drop) refl
]

-- The parts of a text in front of its n-th byte.
chop-take :
    (str : Text) (n c : ℕ)
    → get_elem? str n ≡ some c
    → chop is_blank (take (suc n) str)
      ≡ (if is_blank c then chop is_blank (take n str) else take (suc n) str)
unfolding chop
chop-take [] n c e = absurd (ground arith)
chop-take (x ∷ str) zero c e = ground (arith, e)
chop-take (x ∷ []) (suc n) c e = absurd (ground arith)
chop-take (x ∷ y ∷ str) (suc n) c e = elim (Bool-cases (is_blank c)) [
  | inl blank ↦
      let ih : chop is_blank (take (suc n) (y ∷ str)) ≡ chop is_blank (take n (y ∷ str)) =
        chop-take (y ∷ str) n c e ∙ ground (arith, blank) in
      ground (arith, ih, blank)
  | inr other ↦
      let ih : chop is_blank (take (suc n) (y ∷ str)) ≡ take (suc n) (y ∷ str) =
        chop-take (y ∷ str) n c e ∙ ground (arith, other) in
      ground (arith, ih, other)
]

chop-prefix : (t : Text) → take (length (chop is_blank t)) t ≡ chop is_blank t
unfolding chop
chop-prefix [] = refl
chop-prefix (c ∷ t) = ground (arith, chop-prefix t)

length-chop-pos : (t : Text) → leading t < length t → 1 ≤ length (chop is_blank t)
unfolding chop leading
length-chop-pos [] h = absurd (omega (arith, h))
length-chop-pos (c ∷ t) h = elim (Bool-cases (is_blank c)) [
  | inl blank ↦ ground (arith, blank, length-chop-pos t, h)
  | inr other ↦ ground (arith, other)
]

length-chop-leading :
    (t : Text)
    → leading t < length t
    → length (chop is_blank t) ≡ leading t + length (chop is_blank (trim_start t))
unfolding chop leading trim_start
length-chop-leading [] h = absurd (omega (arith, h))
length-chop-leading (c ∷ t) h = elim (Bool-cases (is_blank c)) [
  | inl blank ↦ ground (arith, blank, length-chop-pos t, length-chop-leading t, h)
  | inr other ↦ ground (arith, other)
]

find_stop_stuck : (str : Text) (start p stop : ℕ) → suc p < stop → find_stop str start p stop ≡ stop
unfolding find_stop
find_stop_stuck str start zero stop h = refl
find_stop_stuck str start (suc p) stop h = ground (arith, find_stop_stuck str start p stop, h)

leading-byte :
    (t : Text)
    → leading t < length t
    → (c : ℕ) × (get_elem? t (leading t) ≡ some c) × (is_blank c ≡ false)
unfolding leading
leading-byte [] h = absurd (omega (arith, h))
leading-byte (c ∷ t) h = elim (Bool-cases (is_blank c)) [
  | inl blank ↦
      let (d, at, other) = leading-byte t (ground (arith, blank, h)) in
      (d, ground (arith, blank, at), other)
  | inr other ↦ (c, ground (arith, other), other)
]

byte_there : (str : Text) (n : ℕ) → n < length str → (c : ℕ) × (get_elem? str n ≡ some c)
byte_there [] n h = absurd (omega (arith, h))
byte_there (c ∷ str) zero h = (c, refl)
byte_there (c ∷ str) (suc n) h = byte_there str n (omega (arith, h))

length-take-le : (n : ℕ) (t : Text) → n ≤ length t → length (take n t) ≡ n
length-take-le n t h = omega (arith, length-take n t, h)

module _ (str : Text) (start d : ℕ) (first : get_elem? str start ≡ some d)
    (shown : is_blank d ≡ false) where
  find_stop-chop :
      (p : ℕ)
      → start ≤ p
      → p < length str
      → find_stop str start p (suc p) ≡ length (chop is_blank (take (suc p) str))
  unfolding find_stop blank_at
  find_stop-chop zero le lt =
      let at_start : get_elem? str 0 ≡ some d =
        subst (λ n. get_elem? str n ≡ some d) (omega (arith, le)) first in
      sym (
        ap length (
          chop-take str 0 d at_start
          ∙ ap (λ b. if b then chop is_blank (take 0 str) else take 1 str) shown)
        ∙ length-take-le 1 str lt)
  find_stop-chop (suc p) le lt =
      let (c, at) = byte_there str (suc p) lt in
      let whole = length-take-le (suc (suc p)) str lt in
      let cut = ap length (chop-take str (suc p) c at) in
      elim (Bool-cases (ltb start (suc p))) [
        | inr last ↦
            let here : get_elem? str (suc p) ≡ some d =
              subst (λ n. get_elem? str n ≡ some d) (ground (arith, le, last)) first in
            let cut' = ap length (chop-take str (suc p) d here) in
            ground (arith, last, shown, cut', whole)
        | inl more ↦ elim (Bool-cases (is_blank c)) [
          | inl blank ↦
              let ih = find_stop-chop p (ground (arith, more)) (omega (arith, lt)) in
              ground (arith, more, at, blank, cut, ih)
          | inr other ↦
              let stuck = find_stop_stuck str start p (suc (suc p)) (omega arith) in
              ground (arith, more, at, other, cut, whole, stuck)
        ]
      ]

take-all : (t : Text) → take (length t) t ≡ t
take-all [] = refl
take-all (c ∷ t) = ap (λ r. c ∷ r) (take-all t)

leading-le : (t : Text) → leading t ≤ length t
unfolding leading
leading-le [] = omega arith
leading-le (c ∷ t) = ground (arith, leading-le t)

drop-all : (t : Text) → drop (length t) t ≡ []
drop-all [] = refl
drop-all (c ∷ t) = drop-all t

-- The string without the blanks (' ', '\r' and '\n') at its beginning and at its end.
abbrev pub trimmed : Text → Text
trimmed str = chop is_blank (trim_start str)

find_stop-leading :
    (str : Text)
    → leading str < length str
    → find_stop str (leading str) (length str - 1) (length str) ≡ leading str + length (trimmed str)
find_stop-leading str h =
    let (d, first, shown) = leading-byte str h in
    let found =
      find_stop-chop str (leading str) d first shown (length str - 1) (omega (arith, h))
        (omega (arith, h)) in
    let whole : suc (length str - 1) ≡ length str = omega (arith, h) in
    ap (find_stop str (leading str) (length str - 1)) (sym whole)
    ∙ found
    ∙ ap (λ n. length (chop is_blank (take n str))) whole
    ∙ ap (λ t. length (chop is_blank t)) (take-all str)
    ∙ length-chop-leading str h

-- The end of clean_string, from the offset that the first loop finds.
abbrev cleaned_from : Text → ℕ → Text × ℕ
cleaned_from str start =
    let stop = find_stop str start (length str - 1) (length str) in
    if start == length str then ([], 0) else (take (stop - start) (drop start str), stop - start)

cleaned_from-blank :
    (str : Text)
    → (leading str == length str) ≡ true
    → cleaned_from str (leading str) ≡ (trimmed str, length (trimmed str))
unfolding chop
cleaned_from-blank str blank =
    let none_left : trim_start str ≡ [] =
      sym (drop-leading str) ∙ ap (λ n. drop n str) (ground (arith, blank)) ∙ drop-all str in
    rw (blank, none_left) refl

cleaned_from-shown :
    (str : Text)
    → (leading str == length str) ≡ false
    → cleaned_from str (leading str) ≡ (trimmed str, length (trimmed str))
cleaned_from-shown str shown =
    let found = find_stop-leading str (ground (arith, shown, leading-le str)) in
    let size : find_stop str (leading str) (length str - 1) (length str) - leading str
        ≡ length (trimmed str) =
      omega (arith, found) in
    rw shown (
      ap (λ k. (take k (drop (leading str) str), k)) size
      ∙ ap (λ t. (take (length (trimmed str)) t, length (trimmed str))) (drop-leading str)
      ∙ ap (λ t. (t, length (trimmed str))) (chop-prefix (trim_start str)))

-- clean_string leaves the string without the blanks (' ', '\r' and '\n') at its beginning and at its
-- end, and returns the length of what it leaves.
pub clean_string_lem : (str : Text) → clean_string str ≡ (trimmed str, length (trimmed str))
unfolding clean_string
clean_string_lem str =
    let start : find_start 0 0 str ≡ leading str = find_start-leading str 0 ∙ omega arith in
    ap (cleaned_from str) start ∙ elim (Bool-cases (leading str == length str)) [
      | inl blank ↦ cleaned_from-blank str blank
      | inr shown ↦ cleaned_from-shown str shown
    ]
