-- ===== src/Conf/Value.antt =====
-- ConfValIsTrue, ConfValIsFalse and the lookups of Booleans of utils/conf.c.
pub mod Laws
use mmdd_pro.Common.{
  Bool, true, false, List, [], ◌∷◌, Option, none, some, if◌then◌else◌, Text, codes, case_eq,
}
use mmdd_pro.Conf.Node.{ConfNode, Forest}
use mmdd_pro.Conf.Lookup.{
  Run, fault, done, conf_get, conf_get_child_value, conf_node_lookup_child_value,
}

abbrev pub trues : List Text
trues = codes "1" ∷ codes "yes" ∷ codes "true" ∷ codes "on" ∷ []

abbrev pub falses : List Text
falses = codes "0" ∷ codes "no" ∷ codes "false" ∷ codes "off" ∷ []

-- The loop over the table.
unfoldable pub one_of : Text → List Text → Bool
one_of val [] = false
one_of val (w ∷ ws) = if case_eq val w then true else one_of val ws

unfoldable pub conf_val_is_true : Text → Bool
unfolding one_of
conf_val_is_true val = one_of val trues

unfoldable pub conf_val_is_false : Text → Bool
unfolding one_of
conf_val_is_false val = one_of val falses

-- ConfGetBool: `none` is the return value 0. strcasecmp on a NULL value is a fault.
unfoldable pub conf_get_bool : ConfNode → Text → Run (Option Bool)
conf_get_bool root name = elim (conf_get root name) [
  | fault ↦ fault
  | done none ↦ done none
  | done (some none) ↦ fault
  | done (some (some v)) ↦ done (some (conf_val_is_true v))
]

-- ConfGetChildValueBool
unfoldable pub conf_get_child_value_bool : Forest → Text → Run (Option Bool)
conf_get_child_value_bool head name = elim (conf_get_child_value head name) [
  | none ↦ done none
  | some none ↦ fault
  | some (some v) ↦ done (some (conf_val_is_true v))
]

-- ConfNodeChildValueIsTrue
unfoldable pub conf_node_child_value_is_true : Forest → Text → Bool
conf_node_child_value_is_true head key = elim (conf_node_lookup_child_value head key) [
  | none ↦ false
  | some v ↦ conf_val_is_true v
]
