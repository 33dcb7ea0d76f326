-- ===== src/Tests/Dump.antt =====
-- The dump (utils/conf.c) of a small tree.
use mmdd_pro.Common.{ℕ, ◌≡◌, refl, arith, [], ◌∷◌, List, Option, none, some, All, codes, length}
use mmdd_pro.Conf.Node.{ConfNode, end, child, new_fields, conf_node_new}
use mmdd_pro.Conf.Dump.{Line, conf_dump}
use mmdd_pro.Conf.Dump.Laws.{IsPlain, node_count, ReadsBack, conf_get-conf_dump}
use mmdd_pro.Tests.Settings.{leaf, node}

abbrev root : ConfNode
root = record conf_node_new {
  head =
      node (codes "a") none (leaf (codes "b") (codes "1") end) (leaf (codes "c") (codes "2") end);
}

conf_dump_runs :
    conf_dump root
    ≡ some
        ((codes "a", none) ∷ (codes "a.b", some (codes "1")) ∷ (codes "c", some (codes "2")) ∷ [])
unfolding conf_dump
conf_dump_runs = refl

root-IsPlain : IsPlain [] root.head
unfolding mmdd_pro.Common.text_eq mmdd_pro.Conf.Node.conf_node_lookup_child
root-IsPlain = (
  (omega arith, (refl, tt)),
  omega arith,
  omega arith,
  refl,
  ((omega arith, (refl, tt)), omega arith, omega arith, refl, tt, tt),
  ((omega arith, (refl, tt)), omega arith, omega arith, refl, tt, tt),
)

conf_get-conf_dump_example :
    (ls : List Line) × (conf_dump root ≡ some ls)
    × (length ls ≡ node_count root.head)
    × All (ReadsBack root) ls
conf_get-conf_dump_example = conf_get-conf_dump root root-IsPlain
