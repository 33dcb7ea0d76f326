-- ===== src/Tests/Include.antt =====
-- ConfLoadCompleteIncludePath (utils/conf.c) at a concrete input.
use mmdd_pro.Common.{
  ℕ, zero, suc, ◌≤◌, ◌≡◌, refl, arith, true, false, List, [], ◌∷◌, none, some, length, Text, codes,
}
use mmdd_pro.Util.Copy.{Buffer}
use mmdd_pro.Util.Paths.{first_is, path_is_relative}
use mmdd_pro.Conf.Node.{ConfNode, Fields, Forest, end, child, new_fields, conf_node_new}
use mmdd_pro.Conf.Lookup.{Run, done, conf_get}
use mmdd_pro.Conf.Include.{last_is, conf_load_complete_include_path}
use mmdd_pro.Conf.Include.Laws.{conf_load_complete_include_path_lem}

-- Memory with a 7 in every byte.
abbrev sevens : ℕ → Buffer
sevens zero = []
sevens (suc n) = 7 ∷ sevens n

sevens-le : (n : ℕ) → n ≤ length (sevens n)
sevens-le zero = omega arith
sevens-le (suc n) = omega (arith, sevens-le n)

abbrev root : ConfNode
root = record conf_node_new {
  head = child (codes "include-path") (record new_fields { val = some (codes "/etc") }) end end;
}

conf_load_complete_include_path_lem_example :
    conf_load_complete_include_path sevens root (codes "a.yaml") ≡ done (codes "/etc/a.yaml")
unfolding path_is_relative first_is last_is conf_get mmdd_pro.Conf.Lookup.conf_get_node
    mmdd_pro.Conf.Lookup.tokens mmdd_pro.Conf.Lookup.walk mmdd_pro.Conf.Node.conf_node_lookup_child
    mmdd_pro.Common.text_eq
conf_load_complete_include_path_lem_example =
    conf_load_complete_include_path_lem sevens root (codes "/etc") (codes "a.yaml") false sevens-le
      refl refl (ground arith) (ground arith) refl
