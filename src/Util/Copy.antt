-- ===== src/Util/Copy.antt =====
-- strlcpy and strlcat of utils/utils.c over a buffer of bytes. `none` is a write or a read past
-- the end of the buffer.
pub mod Laws
use mathlib.Core.Option
use mmdd_pro.Common.{
  ℕ, zero, suc, ◌+◌, ◌-◌, ◌≤◌, ◌<◌, ◌≡◌, refl, ap, List, [], ◌∷◌, ◌++◌, Option, none, some, arith,
  length, take, ◌==◌, if◌then◌else◌, Text, Bool-cases, inl, inr, length-append, true, false,
}

abbrev pub Buffer : Type 0
Buffer = List ℕ

-- `while (*s++);` from the offset `s` on: the offset behind the NUL.
to_nul : ℕ → Text → ℕ
to_nul s [] = s + 1
to_nul s (_ ∷ src) = to_nul (s + 1) src

-- The loop of strlcpy and the write of the NUL behind it, with room for `n` bytes before the NUL, from
-- the offset `s` of `src` on. The number is the offset at the end: behind the NUL of `src` where the loop
-- has copied that, and else what to_nul gives.
copy_loop : ℕ → ℕ → Text → Buffer → Option (Buffer × ℕ)
unfolding to_nul
copy_loop n s src [] = none
copy_loop zero s src (_ ∷ dst) = some (0 ∷ dst, to_nul s src)
copy_loop (suc n) s [] (_ ∷ dst) = some (0 ∷ dst, s + 1)
copy_loop (suc n) s (c ∷ src) (_ ∷ dst) =
    Option.map (λ (b, end). (c ∷ b, end)) (copy_loop n (s + 1) src dst)

-- The buffer afterwards, and the value that is returned: `s - src - 1`.
pub strlcpy : Buffer → Text → ℕ → Option (Buffer × ℕ)
unfolding copy_loop
strlcpy dst src zero = some (dst, to_nul 0 src - 1)
strlcpy dst src (suc n) = Option.map (λ (b, end). (b, end - 1)) (copy_loop n 0 src dst)

-- The second loop of strlcat, with `n` bytes left.
append_loop : ℕ → Text → Buffer → Option Buffer
append_loop n [] [] = none
append_loop n [] (_ ∷ dst) = some (0 ∷ dst)
append_loop n (c ∷ src) [] = let skipped = append_loop n src [] in if n == 1 then skipped else none
append_loop n (c ∷ src) (x ∷ dst) =
    let skipped = append_loop n src (x ∷ dst) in
    let written = Option.map (◌∷◌ c) (append_loop (n - 1) src dst) in
    if n == 1 then skipped else written

-- The first loop of strlcat, up to the NUL of `dst` or `n` bytes; then the appending. The number
-- is `dlen`.
find_end : ℕ → Text → Buffer → Option (Buffer × ℕ)
find_end zero src dst = some (dst, 0)
find_end (suc n) src [] = none
find_end (suc n) src (x ∷ dst) =
    let here = Option.map (λ b. (b, 0)) (append_loop (suc n) src (x ∷ dst)) in
    let later = Option.map (λ (b, dlen). (x ∷ b, dlen + 1)) (find_end n src dst) in
    if x == 0 then here else later

-- The buffer afterwards, and the length that strlcat returns.
pub strlcat : Buffer → Text → ℕ → Option (Buffer × ℕ)
unfolding append_loop find_end
strlcat dst src siz = Option.map (λ (b, dlen). (b, dlen + length src)) (find_end siz src dst)

-- The C string that a buffer holds.
unfoldable pub cstr : Buffer → Text
cstr [] = []
cstr (c ∷ b) = let rest = cstr b in if c == 0 then [] else c ∷ rest
