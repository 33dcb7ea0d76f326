-- ===== src/Conf/Value/Laws.antt =====
-- The tables of ConfValIsTrue and ConfValIsFalse (utils/conf.c) exclude each other.
use mmdd_pro.Common.{
  ◌≡◌, refl, ap, ◌∙◌, inl, inr, Bool, true, false, List, [], ◌∷◌, map, arith, if◌then◌else◌, Text,
  text_eq, text_eq_iff, to_lower, case_eq, All, Bool-cases,
}
use mmdd_pro.Conf.Value.{one_of, trues, falses, conf_val_is_true, conf_val_is_false}

one_of-case :
    (val w : Text) (ws : List Text)
    → map to_lower val ≡ map to_lower w
    → one_of val ws ≡ one_of w ws
unfolding one_of case_eq
one_of-case val w [] e = refl
one_of-case val w (x ∷ ws) e = rw (e, one_of-case val w ws e, one_of, case_eq) refl

one_of-exclusive :
    (val : Text) (ws vs : List Text)
    → All (λ w. one_of w vs ≡ false) ws
    → one_of val ws ≡ true
    → one_of val vs ≡ false
unfolding one_of case_eq
one_of-exclusive val [] vs a e = absurd (ground arith)
one_of-exclusive val (w ∷ ws) vs a e =
    elim (Bool-cases (text_eq (map to_lower val) (map to_lower w))) [
      | inl same ↦ one_of-case val w vs ((text_eq_iff _ _).0 same) ∙ a.0
      | inr other ↦ one_of-exclusive val ws vs a.1 (ground arith)
    ]

-- No value is true for ConfValIsTrue and false for ConfValIsFalse.
pub conf_val_is_true-conf_val_is_false :
    (val : Text) → conf_val_is_true val ≡ true → conf_val_is_false val ≡ false
unfolding conf_val_is_true conf_val_is_false one_of case_eq mmdd_pro.Common.text_eq
    mmdd_pro.Common.to_lower
conf_val_is_true-conf_val_is_false val e =
    one_of-exclusive val trues falses (refl, (refl, (refl, (refl, tt)))) e
