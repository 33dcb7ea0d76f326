-- ===== src/Yaml/Total.antt =====
-- ConfYamlParse (utils/conf-yaml-loader.c) returns: with more fuel than there are events the loop
-- and its nested calls end.
use mmdd_pro.Common.{
  ℕ, zero, suc, ◌≤◌, ◌<◌, ◌≡◌, refl, inl, inr, Bool, true, false, List, [], ◌∷◌, Option, none, some,
  arith, length, ℤ, pos, negsuc, Bool-cases,
}
use mmdd_pro.Yaml.{
  Event, document_start, scalar, sequence_start, sequence_end, mapping_start, mapping_end,
  stream_end, other, Loop, Parsed, version_ok, resume, after_call, finish, conf_yaml_parse,
}
use mmdd_pro.Conf.Node.{Fields, Forest}

-- A result, with at most `n` events left.
abbrev Bounded : ℕ → Option Parsed → Type 0
Bounded n none = ⊥
Bounded n (some p) = length p.events ≤ n

-- Fewer events left fit a larger bound.
Bounded-mono : (m n : ℕ) (r : Option Parsed) → m ≤ n → Bounded m r → Bounded n r
Bounded-mono m n none h b = b
Bounded-mono m n (some p) h b = omega arith

after_call-Bounded :
    (n : ℕ) (join : Fields → Forest → Loop) (next : List Event → Loop → Option Parsed)
    (r : Option Parsed)
    → ((es : List Event) (l : Loop) → length es ≤ n → Bounded n (next es l))
    → Bounded n r
    → Bounded n (after_call join next r)
unfolding after_call finish
after_call-Bounded n join next none h b = b
after_call-Bounded n join next (some sub) h b = go sub.ret
  where
    go : (ret : ℤ) → Bounded n (resume next sub.events (join sub.parent sub.head) ret)
    go (pos zero) = h sub.events _ b
    go (pos (suc m)) = b
    go (negsuc m) = b

conf_yaml_parse-Bounded :
    (fuel : ℕ) (es : List Event) (inseq : Bool) (l : Loop)
    → length es < fuel
    → Bounded (length es) (conf_yaml_parse fuel es inseq l)
unfolding conf_yaml_parse finish
conf_yaml_parse-Bounded zero es inseq l h = elim h [ ]
conf_yaml_parse-Bounded (suc fuel) [] inseq l h = omega arith
conf_yaml_parse-Bounded (suc fuel) (document_start version ∷ es) inseq l h =
    elim (Bool-cases (version_ok version)) [
      | inl e ↦ rw e (
          Bounded-mono (length es) _ _ (omega arith)
            (conf_yaml_parse-Bounded fuel es inseq l (omega arith)))
      | inr e ↦ rw e (omega arith)
    ]
conf_yaml_parse-Bounded (suc fuel) (scalar value ∷ es) inseq l h =
    Bounded-mono (length es) _ _ (omega arith)
      (conf_yaml_parse-Bounded fuel es inseq _ (omega arith))
conf_yaml_parse-Bounded (suc fuel) (sequence_start ∷ es) inseq l h =
    Bounded-mono (length es) _ _ (omega arith) (
      after_call-Bounded (length es) _ _ _
        (λ es' l' k.
          Bounded-mono (length es') (length es) _ k
            (conf_yaml_parse-Bounded fuel es' inseq l' (omega arith)))
        (conf_yaml_parse-Bounded fuel es true _ (omega arith)))
conf_yaml_parse-Bounded (suc fuel) (sequence_end ∷ es) inseq l h = omega arith
conf_yaml_parse-Bounded (suc fuel) (mapping_start ∷ es) true l h =
    Bounded-mono (length es) _ _ (omega arith) (
      after_call-Bounded (length es) _ _ _
        (λ es' l' k.
          Bounded-mono (length es') (length es) _ k
            (conf_yaml_parse-Bounded fuel es' true l' (omega arith)))
        (conf_yaml_parse-Bounded fuel es false _ (omega arith)))
conf_yaml_parse-Bounded (suc fuel) (mapping_start ∷ es) false l h =
    Bounded-mono (length es) _ _ (omega arith) (
      after_call-Bounded (length es) _ _ _
        (λ es' l' k.
          Bounded-mono (length es') (length es) _ k
            (conf_yaml_parse-Bounded fuel es' false l' (omega arith)))
        (conf_yaml_parse-Bounded fuel es false _ (omega arith)))
conf_yaml_parse-Bounded (suc fuel) (mapping_end ∷ es) inseq l h = omega arith
conf_yaml_parse-Bounded (suc fuel) (stream_end ∷ es) inseq l h = omega arith
conf_yaml_parse-Bounded (suc fuel) (other ∷ es) inseq l h =
    Bounded-mono (length es) _ _ (omega arith)
      (conf_yaml_parse-Bounded fuel es inseq l (omega arith))

-- With more fuel than there are events ConfYamlParse returns, and it leaves no more events than it
-- was given.
pub conf_yaml_parse_total :
    (fuel : ℕ) (es : List Event) (inseq : Bool) (l : Loop)
    → length es < fuel
    → (p : Parsed) × (conf_yaml_parse fuel es inseq l ≡ some p) × (length p.events ≤ length es)
conf_yaml_parse_total fuel es inseq l h =
    go (conf_yaml_parse fuel es inseq l) refl (conf_yaml_parse-Bounded fuel es inseq l h)
  where
    go :
        (r : Option Parsed)
        → conf_yaml_parse fuel es inseq l ≡ r
        → Bounded (length es) r
        → (p : Parsed) × (conf_yaml_parse fuel es inseq l ≡ some p) × (length p.events ≤ length es)
    go none e b = absurd b
    go (some p) e b = (p, e, b)
