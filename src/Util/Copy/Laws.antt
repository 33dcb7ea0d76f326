-- ===== src/Util/Copy/Laws.antt =====
-- What strlcpy and strlcat of utils/utils.c leave in the buffer.
use mmdd_pro.Common.{
  ℕ, zero, suc, ◌+◌, ◌-◌, ◌≤◌, ◌<◌, ◌≡◌, ◌≢◌, refl, [], ◌∷◌, ◌++◌, some, arith, length, take, Text,
  All,
}
use mmdd_pro.Util.Copy.{Buffer, to_nul, copy_loop, strlcpy, append_loop, find_end, strlcat, cstr}

-- No byte of a C string is NUL.
abbrev pub IsText : Text → Type 0
IsText t = All (λ c. c ≢ 0) t

to_nul_lem : (s : ℕ) (src : Text) → to_nul s src ≡ s + length src + 1
unfolding to_nul
to_nul_lem s [] = omega arith
to_nul_lem s (c ∷ src) = omega (arith, to_nul_lem (s + 1) src)

copy_loop_lem :
    (n s : ℕ) (src : Text) (dst : Buffer)
    → IsText src
    → n < length dst
    → (b : Buffer) × (copy_loop n s src dst ≡ some (b, s + length src + 1))
      × (cstr b ≡ take n src)
      × (length b ≡ length dst)
unfolding copy_loop cstr
copy_loop_lem n s src [] t h = absurd (omega arith)
copy_loop_lem zero s src (x ∷ dst) t h = (0 ∷ dst, ground (arith, to_nul_lem s src), refl, refl)
copy_loop_lem (suc n) s [] (x ∷ dst) t h = (0 ∷ dst, ground arith, refl, refl)
copy_loop_lem (suc n) s (c ∷ src) (x ∷ dst) t h =
    let (b, e, string, l) = copy_loop_lem n (s + 1) src dst t.1 (omega arith) in
    (c ∷ b, ground arith, ground arith, ground arith)

-- With room in the buffer, strlcpy writes the first `siz - 1` bytes of `src` and a NUL, stays
-- inside the buffer and returns strlen(src).
pub strlcpy_lem :
    (dst : Buffer) (src : Text) (siz : ℕ)
    → IsText src
    → 0 < siz
    → siz ≤ length dst
    → (b : Buffer) × (strlcpy dst src siz ≡ some (b, length src))
      × (cstr b ≡ take (siz - 1) src)
      × (length b ≡ length dst)
unfolding strlcpy
strlcpy_lem dst src zero t pos h = absurd (omega arith)
strlcpy_lem dst src (suc n) t pos h =
    let (b, e, s, l) = copy_loop_lem n 0 src dst t (omega arith) in
    (b, ground arith, ground arith, l)

append_loop_lem :
    (n : ℕ) (src : Text) (dst : Buffer)
    → IsText src
    → n < length dst
    → (b : Buffer) × (append_loop (suc n) src dst ≡ some b)
      × (cstr b ≡ take n src)
      × (length b ≡ length dst)
unfolding append_loop cstr
append_loop_lem n src [] t h = absurd (omega arith)
append_loop_lem zero [] (x ∷ dst) t h = (0 ∷ dst, refl, refl, refl)
append_loop_lem (suc n) [] (x ∷ dst) t h = (0 ∷ dst, refl, refl, refl)
append_loop_lem zero (c ∷ src) (x ∷ dst) t h =
    let (b, e, s, l) = append_loop_lem zero src (x ∷ dst) t.1 h in (b, e, s, l)
append_loop_lem (suc n) (c ∷ src) (x ∷ dst) t h =
    let (b, e, s, l) = append_loop_lem n src dst t.1 (omega arith) in
    (c ∷ b, ground arith, ground arith, ground arith)

find_end_lem :
    (n : ℕ) (t src : Text) (rest : Buffer)
    → IsText t
    → IsText src
    → length t < n
    → n ≤ length t + 1 + length rest
    → (b : Buffer) × (find_end n src (t ++ (0 ∷ rest)) ≡ some (b, length t))
      × (cstr b ≡ take (n - 1) (t ++ src))
      × (length b ≡ length t + 1 + length rest)
unfolding find_end cstr
find_end_lem zero t src rest ht hs h k = absurd (omega arith)
find_end_lem (suc n) [] src rest ht hs h k =
    let (b, e, s, l) = append_loop_lem n src (0 ∷ rest) hs (omega arith) in
    (b, ground arith, ground arith, ground arith)
find_end_lem (suc zero) (c ∷ t) src rest ht hs h k = absurd (omega arith)
find_end_lem (suc (suc n)) (c ∷ t) src rest ht hs h k =
    let (b, e, s, l) = find_end_lem (suc n) t src rest ht.1 hs (omega arith) (omega arith) in
    (c ∷ b, ground arith, ground arith, ground arith)

-- With a C string `t` shorter than `siz` in a buffer of at least `siz` bytes, strlcat leaves the
-- first `siz - 1` bytes of `t` followed by `src`, stays inside the buffer and returns the length
-- of the whole.
pub strlcat_lem :
    (t src : Text) (rest : Buffer) (siz : ℕ)
    → IsText t
    → IsText src
    → length t < siz
    → siz ≤ length t + 1 + length rest
    → (b : Buffer) × (strlcat (t ++ (0 ∷ rest)) src siz ≡ some (b, length t + length src))
      × (cstr b ≡ take (siz - 1) (t ++ src))
      × (length b ≡ length t + 1 + length rest)
unfolding strlcat
strlcat_lem t src rest siz ht hs h k =
    let (b, e, s, l) = find_end_lem siz t src rest ht hs h k in (b, ground arith, s, l)
