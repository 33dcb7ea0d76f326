-- ===== src/Util/Split.antt =====
-- str_split_func of utils/utils.c. A `struct str_split` whose `count` is 0 has no pieces; otherwise
-- the pieces are the C strings that `str_array` points to. The duplicate `str` and str_split_free
-- are memory management and have no counterpart here.
pub mod Laws
use mmdd_pro.Common.{ℕ, zero, suc, ◌+◌, ◌-◌, List, [], ◌∷◌, ltb, ◌==◌, if◌then◌else◌, Text}

pub record StrSplit : Type 0 where
  pub count : ℕ
  pub str_array : List Text

-- The first loop.
count_delimiters : ℕ → Text → ℕ → ℕ
count_delimiters delimiter [] count = count
count_delimiters delimiter (c ∷ t) count =
    count_delimiters delimiter t (if delimiter == c then count + 1 else count)

-- A byte in front of the first piece.
abbrev pub cons_first : ℕ → List Text → List Text
cons_first c [] = (c ∷ []) ∷ []
cons_first c (p ∷ ps) = (c ∷ p) ∷ ps

-- The second loop: a NUL over a delimiter ends a piece, until `count` is 1.
cut : ℕ → Text → ℕ → List Text
cut delimiter [] count = [] ∷ []
cut delimiter (c ∷ t) count =
    let piece_ends = [] ∷ cut delimiter t (count - 1) in
    let piece_goes_on = cons_first c (cut delimiter t count) in
    if ltb 1 count then (if delimiter == c then piece_ends else piece_goes_on) else (c ∷ t) ∷ []

unfoldable pub str_split_func : Text → ℕ → StrSplit
unfolding count_delimiters cut
str_split_func [] delimiter = record { count = 0; str_array = [] }
str_split_func (c ∷ t) delimiter =
    let count = count_delimiters delimiter (c ∷ t) 1 in
    record { count = count; str_array = cut delimiter (c ∷ t) count }
