-- ===== src/Tests/Conf.antt =====
-- utils/conf.c at concrete inputs.
use mmdd_pro.Common.{
  ℕ, zero, suc, ◌+◌, ◌-◌, ◌≤◌, ◌<◌, ◌≡◌, ◌≢◌, refl, Bool, true, false, List, [], ◌∷◌, ◌++◌, Option,
  none, some, arith, length, take, All, Text, codes, ℤ, pos, minus_one, get_elem?,
}
use mmdd_pro.Conf.Node.{ConfNode, Fields, Forest, end, child, new_fields, conf_node_new}
use mmdd_pro.Conf.Lookup.{Run, done, tokens, conf_get_node, conf_get}
use mmdd_pro.Conf.Set.{conf_set}
use mmdd_pro.Conf.Set.Get.{conf_get-conf_set, conf_get-conf_set_ne}
use mmdd_pro.Conf.Set.Final.{conf_sets, conf_set_final}
use mmdd_pro.Common.{◌↔◌}
use mmdd_pro.Common.{set}

abbrev name_ab : Text
name_ab = codes "a.b"

abbrev name_ac : Text
name_ac = codes "a.c"

-- The tree with `a.b` set to "1", which may be overridden or not.
abbrev tree : Bool → ConfNode
tree allow = record conf_node_new {
  head =
      child (codes "a") (record new_fields { has_parent = true })
        (child (codes "b")
          (record new_fields { has_parent = true; val = some (codes "1"); allow_override = allow })
          end end)
        end;
}

conf_get-conf_set_example : conf_get (tree true) name_ab ≡ done (some (some (codes "1")))
unfolding conf_set tokens mmdd_pro.Conf.Lookup.walk mmdd_pro.Conf.Node.conf_node_lookup_child
    mmdd_pro.Conf.Set.create_at mmdd_pro.Conf.Node.insert_tail
conf_get-conf_set_example = conf_get-conf_set conf_node_new name_ab (codes "1") true refl

-- Between the two calls `a.c` is set, and `a.b` in vain.
abbrev calls : List (Text × Text × Bool)
calls = (name_ac, codes "3", true) ∷ (name_ab, codes "4", true) ∷ []

abbrev later : ConfNode
later = record conf_node_new {
  head =
      child (codes "a") (record new_fields { has_parent = true })
        (child (codes "b")
          (record new_fields { has_parent = true; val = some (codes "1"); allow_override = false })
          end
          (child (codes "c")
            (record new_fields { has_parent = true; val = some (codes "3"); allow_override = true })
            end end))
        end;
}

conf_set_final_example :
    (conf_get later name_ab ≡ done (some (some (codes "1"))))
    × (conf_set later name_ab (codes "2") true ≡ done (0, later))
unfolding conf_sets conf_set tokens mmdd_pro.Conf.Lookup.walk
    mmdd_pro.Conf.Node.conf_node_lookup_child mmdd_pro.Common.text_eq mmdd_pro.Conf.Set.create_at
    mmdd_pro.Conf.Node.insert_tail mmdd_pro.Conf.Node.update_child
conf_set_final_example =
    conf_set_final conf_node_new name_ab (codes "1") (codes "2") true calls {last = later} refl refl

conf_get-conf_set_ne_example : conf_get (tree true) (codes "a") ≡ done (some none)
unfolding conf_set conf_get conf_get_node tokens mmdd_pro.Conf.Lookup.walk
    mmdd_pro.Conf.Node.conf_node_lookup_child mmdd_pro.Common.text_eq mmdd_pro.Conf.Set.create_at
    mmdd_pro.Conf.Set.set_at mmdd_pro.Conf.Node.insert_tail mmdd_pro.Conf.Node.update_child
conf_get-conf_set_ne_example =
    conf_get-conf_set_ne (tree true) name_ab (codes "a") (codes "1") true 1 refl (λ e. ground arith)
      refl
