-- ===== src/Conf/Dump/Names.antt =====
-- The full names of nodes, as ConfPrintNameArray writes and strtok_r reads them (utils/conf.c).
use mmdd_pro.Common.{
  ℕ, zero, suc, ◌+◌, ◌≤◌, ◌≡◌, refl, sym, ap, ◌∙◌, false, List, [], ◌∷◌, ◌++◌, append-nil,
  append_assoc, arith, ◌==◌, Text, codes, length, length-append, take, All,
}
use mmdd_pro.Conf.Lookup.{dotted, drop_empty, tokens}
use mmdd_pro.Conf.Dump.{append_name, conf_print_name_array}

-- A name that is there and has no dot.
abbrev pub IsName : Text → Type 0
IsName n = (1 ≤ length n) × All (λ c. (c == b'.') ≡ false) n

abbrev pub join : List Text → Text
join [] = []
join (n ∷ []) = n
join (n ∷ m ∷ ns) = n ++ (b'.' ∷ join (m ∷ ns))

dotted-name : (n : Text) → All (λ c. (c == b'.') ≡ false) n → dotted n ≡ n ∷ []
unfolding dotted
dotted-name [] h = refl
dotted-name (c ∷ n) (here, h) = rw (here, dotted-name n h, dotted) refl

dotted-append :
    (n t : Text) → All (λ c. (c == b'.') ≡ false) n → dotted (n ++ (b'.' ∷ t)) ≡ n ∷ dotted t
unfolding dotted
dotted-append [] t h = refl
dotted-append (c ∷ n) t (here, h) = rw (here, dotted-append n t h, dotted) refl

drop_empty-cons :
    (n : Text) (ts : List Text) → 1 ≤ length n → drop_empty (n ∷ ts) ≡ n ∷ drop_empty ts
unfolding drop_empty
drop_empty-cons [] ts h = absurd (omega (arith, h))
drop_empty-cons (c ∷ n) ts h = refl

-- strtok_r finds the names again.
pub tokens-join : (ns : List Text) → All IsName ns → tokens (join ns) ≡ ns
unfolding tokens drop_empty dotted
tokens-join [] h = refl
tokens-join (n ∷ []) ((some_bytes, plain), h) =
    ap drop_empty (dotted-name n plain) ∙ drop_empty-cons n [] some_bytes
tokens-join (n ∷ m ∷ ns) ((some_bytes, plain), h) =
    ap drop_empty (dotted-append n (join (m ∷ ns)) plain)
    ∙ drop_empty-cons n (dotted (join (m ∷ ns))) some_bytes
    ∙ ap (λ ts. n ∷ ts) (tokens-join (m ∷ ns) h)

take-all : (n : ℕ) (t : Text) → length t ≤ n → take n t ≡ t
take-all zero [] h = refl
take-all zero (c ∷ t) h = absurd (omega (arith, h))
take-all (suc n) [] h = refl
take-all (suc n) (c ∷ t) h = ap (λ r. c ∷ r) (take-all n t (omega (arith, h)))

append_name-all : (name t : Text) → length name + length t ≤ 16383 → append_name name t ≡ name ++ t
append_name-all name t h = take-all 16383 (name ++ t) (omega (arith, h, length-append {0} name t))

-- The whole name is printed if it fits.
pub print_name-join :
    (ns : List Text) (name : Text)
    → length name + length (join ns) ≤ 16383
    → conf_print_name_array name ns ≡ name ++ join ns
unfolding conf_print_name_array
print_name-join [] name h = sym (append-nil name)
print_name-join (n ∷ []) name h = append_name-all name n h
print_name-join (n ∷ m ∷ ns) name h =
    let rest = join (m ∷ ns) in
    let size = length-append {0} n (b'.' ∷ rest) in
    let size' = length-append {0} name n in
    let size'' = length-append {0} (name ++ n) (codes ".") in
    let first = append_name-all name n (omega (arith, h, size)) in
    ap (λ t. conf_print_name_array (append_name t (codes ".")) (m ∷ ns)) first
    ∙ ap (λ t. conf_print_name_array t (m ∷ ns))
        (append_name-all (name ++ n) (codes ".") (omega (arith, h, size, size')))
    ∙ print_name-join (m ∷ ns) ((name ++ n) ++ codes ".") (omega (arith, h, size, size', size''))
    ∙ append_assoc (name ++ n) (codes ".") rest
    ∙ append_assoc name n (codes "." ++ rest)
