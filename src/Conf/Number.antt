-- ===== src/Conf/Number.antt =====
-- ConfGetInt, ConfGetChildValueInt, ConfGetDouble and ConfGetFloat of utils/conf.c. strtoimax, strtod and
-- strtof are parameters, which give the value and what stands behind the number (`*endptr`).
pub mod Laws
use mmdd_pro.Common.{
  ℕ, ◌+◌, ◌-◌, ◌^◌, Bool, true, false, ◌||◌, List, [], ◌∷◌, Option, none, some, if◌then◌else◌, ◌==◌,
  Text, length, ltb, ℤ, pos, negsuc, eqb_ℤ,
}
use mmdd_pro.Conf.Node.{ConfNode, Forest}
use mmdd_pro.Conf.Lookup.{Run, fault, done, conf_get, conf_get_child_value}

abbrev pub intmax_max : ℤ
intmax_max = pos (2 ^ 63 - 1)

abbrev pub intmax_min : ℤ
intmax_min = negsuc (2 ^ 63 - 1)

-- What is done with the text that ConfGet has found; the conversion of NULL is undefined.
abbrev pub read_by {ℓ} :
    {A : Type ℓ} → (Text → Option A) → Run (Option (Option Text)) → Run (Option A)
read_by convert fault = fault
read_by convert (done none) = done none
read_by convert (done (some none)) = fault
read_by convert (done (some (some strval))) = done (convert strval)

-- The whole text has to be the number.
abbrev pub whole {ℓ} : {A : Type ℓ} → Text → A × Text → Option A
whole strval (v, endptr) = if length strval == 0 || ltb 0 (length endptr) then none else some v

-- The limits are what strtoimax returns on overflow, and are refused.
abbrev pub inside : Option ℤ → Option ℤ
inside none = none
inside (some v) = if eqb_ℤ v intmax_max || eqb_ℤ v intmax_min then none else some v

module _ (strtoimax : Text → ℤ × Text) where
  unfoldable pub conf_get_int : ConfNode → Text → Run (Option ℤ)
  conf_get_int root name = read_by (λ t. inside (whole t (strtoimax t))) (conf_get root name)

  unfoldable pub conf_get_child_value_int : Forest → Text → Run (Option ℤ)
  conf_get_child_value_int head name =
      read_by (λ t. inside (whole t (strtoimax t))) (done (conf_get_child_value head name))

-- strtod and strtof, on the floating-point numbers `A`.
module _ {A : Type 0} (strtod : Text → A × Text) where
  unfoldable pub conf_get_double : ConfNode → Text → Run (Option A)
  conf_get_double root name = read_by (λ t. whole t (strtod t)) (conf_get root name)

  unfoldable pub conf_get_float : ConfNode → Text → Run (Option A)
  conf_get_float root name = read_by (λ t. whole t (strtod t)) (conf_get root name)
