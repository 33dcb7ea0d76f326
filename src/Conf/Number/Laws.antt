-- ===== src/Conf/Number/Laws.antt =====
-- ConfGetInt after ConfSet (utils/conf.c).
use mmdd_pro.Common.{
  ◌≡◌, ap, ◌∙◌, Bool, false, [], none, some, Text, length, ℤ, eqb_ℤ, ◌==◌, ◌||◌, if◌then◌else◌,
}
use mmdd_pro.Conf.Node.{ConfNode}
use mmdd_pro.Conf.Lookup.{done}
use mmdd_pro.Conf.Set.{conf_set}
use mmdd_pro.Conf.Set.Get.{conf_get-conf_set}
use mmdd_pro.Conf.Number.{intmax_max, intmax_min, read_by, whole, inside, conf_get_int}

-- Where strtoimax reads a text as one number to its end, and the number is not at a limit: if ConfSet
-- of the text returns 1, then ConfGetInt gives the number. At the upper limit it gives nothing, though
-- the text may be that number.
pub conf_get_int-conf_set :
    (strtoimax : Text → ℤ × Text) (root : ConfNode) (name val : Text) (allow : Bool) (v : ℤ)
    {root' : ConfNode}
    → conf_set root name val allow ≡ done (1, root')
    → strtoimax val ≡ (v, [])
    → (length val == 0) ≡ false
    → conf_get_int strtoimax root' name
      ≡ done (if eqb_ℤ v intmax_max || eqb_ℤ v intmax_min then none else some v)
unfolding conf_get_int
conf_get_int-conf_set strtoimax root name val allow v {root'} e reads some_bytes =
    ap (read_by (λ t. inside (whole t (strtoimax t)))) (conf_get-conf_set root name val allow e)
    ∙ ap (λ r. done (inside (whole val r))) reads
    ∙ ap (λ b. done (inside (if b || false then none else some v))) some_bytes
