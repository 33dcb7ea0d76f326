-- ===== src/Util/Clean.antt =====
-- clean_string of utils/utils.c: blanks are cut off at both ends of a string, in place.
pub mod Tests
pub mod Laws
use mmdd_pro.Common.{
  ℕ, zero, suc, ◌+◌, ◌-◌, ◌≡◌, Bool, true, false, ◌&&◌, ◌||◌, [], ◌∷◌, Option, none, some, length,
  get_elem?, take, drop, ltb, ◌==◌, if◌then◌else◌, Text,
}

unfoldable pub is_blank : ℕ → Bool
is_blank c = c == b' ' || c == b'\r' || c == b'\n'

-- The first loop, with `p` an offset from `str`. `start` is one more than in the source, where it
-- begins before the string: it is `start` after the `++start`.
unfoldable find_start : ℕ → ℕ → Text → ℕ
find_start p start [] = start
find_start p start (c ∷ t) =
    find_start (p + 1) (if is_blank c && start == p then p + 1 else start) t

-- str[p]
unfoldable blank_at : Text → ℕ → Bool
unfolding is_blank
blank_at str p = elim (get_elem? str p) [ none ↦ false | some c ↦ is_blank c ]

-- The second loop, down from `p` to `start`.
unfoldable find_stop : Text → ℕ → ℕ → ℕ → ℕ
find_stop str start zero stop = stop
find_stop str start (suc p) stop =
    let rest =
      find_stop str start p (if blank_at str (suc p) && stop == suc p + 1 then suc p else stop) in
    if ltb start (suc p) then rest else stop

-- The string afterwards and the length that is returned.
unfoldable pub clean_string : Text → Text × ℕ
unfolding find_start find_stop blank_at
clean_string str =
    let start = find_start 0 0 str in
    let stop = find_stop str start (length str - 1) (length str) in
    if start == length str then ([], 0) else (take (stop - start) (drop start str), stop - start)
