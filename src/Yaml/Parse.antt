-- ===== src/Yaml/Parse.antt =====
-- ConfYamlParse (utils/conf-yaml-loader.c) on the events of a mapping: it reads them to the
-- matching end, and builds what the structural reading builds.
use mmdd_pro.Common.{
  ℕ, zero, suc, ◌+◌, ◌-◌, ◌≤◌, ◌<◌, ◌≡◌, refl, ap, ◌∙◌, Bool, true, false, List, ◌∷◌, some, arith,
  Text, pos,
}
use mmdd_pro.Conf.Node.{ConfNode}
use mmdd_pro.Yaml.{
  Event, scalar, sequence_start, sequence_end, mapping_start, mapping_end, conf_key, conf_val, Loop,
  key_step, val_step, seq_step, map_step, scalar_step, deref, enter, seq_node, back, back_seq,
  after_call, finish, conf_yaml_parse,
}
use mmdd_pro.Yaml.Document.{
  Pairs, no_pair, pair_scalar, pair_mapping, pair_sequence, Items, no_item, item_scalar,
  item_mapping, item_sequence, pair_events, item_events, load_pairs, load_items,
}

-- All events inside, and the rounds of the loop that they take.
unfoldable mutual
  pub pair_count : Pairs → ℕ
  pair_count no_pair = 0
  pair_count (pair_scalar k v ps) = 2 + pair_count ps
  pair_count (pair_mapping k m ps) = 3 + pair_count m + pair_count ps
  pair_count (pair_sequence k s ps) = 3 + item_count s + pair_count ps

  pub item_count : Items → ℕ
  item_count no_item = 0
  item_count (item_scalar v is) = 1 + item_count is
  item_count (item_mapping m is) = 2 + pair_count m + item_count is
  item_count (item_sequence s is) = 2 + item_count s + item_count is

pair_rounds : Pairs → ℕ
pair_rounds no_pair = 0
pair_rounds (pair_scalar k v ps) = 2 + pair_rounds ps
pair_rounds (pair_mapping k m ps) = 2 + pair_rounds ps
pair_rounds (pair_sequence k s ps) = 2 + pair_rounds ps

item_rounds : Items → ℕ
item_rounds no_item = 0
item_rounds (item_scalar v is) = 1 + item_rounds is
item_rounds (item_mapping m is) = 1 + item_rounds is
item_rounds (item_sequence s is) = 1 + item_rounds is

pair_rounds-le : (m : Pairs) → pair_rounds m ≤ pair_count m
unfolding pair_rounds pair_count
pair_rounds-le no_pair = omega arith
pair_rounds-le (pair_scalar k v ps) = omega (arith, pair_rounds-le ps)
pair_rounds-le (pair_mapping k m ps) = omega (arith, pair_rounds-le ps)
pair_rounds-le (pair_sequence k s ps) = omega (arith, pair_rounds-le ps)

item_rounds-le : (s : Items) → item_rounds s ≤ item_count s
unfolding item_rounds pair_count
item_rounds-le no_item = omega arith
item_rounds-le (item_scalar v is) = omega (arith, item_rounds-le is)
item_rounds-le (item_mapping m is) = omega (arith, item_rounds-le is)
item_rounds-le (item_sequence s is) = omega (arith, item_rounds-le is)

key_step-state : (k : Text) (l : Loop) → (key_step k l).state ≡ conf_val
unfolding key_step
key_step-state k l = ground arith

entered : (n : ConfNode) → (enter n).state ≡ conf_key
unfolding enter
entered n = refl

-- One round each.
parse_item :
    (f : ℕ) (v : Text) (es : List Event) (l : Loop)
    → conf_yaml_parse (suc f) (scalar v ∷ es) true l ≡ conf_yaml_parse f es true (seq_step v l)
unfolding conf_yaml_parse scalar_step
parse_item f v es l = refl

parse_key :
    (f : ℕ) (k : Text) (es : List Event) (l : Loop)
    → l.state ≡ conf_key
    → conf_yaml_parse (suc f) (scalar k ∷ es) false l ≡ conf_yaml_parse f es false (key_step k l)
unfolding conf_yaml_parse scalar_step
parse_key f k es l st = ap (λ s. conf_yaml_parse f es false (map_step s k l)) st

parse_val :
    (f : ℕ) (v : Text) (es : List Event) (l : Loop)
    → l.state ≡ conf_val
    → conf_yaml_parse (suc f) (scalar v ∷ es) false l ≡ conf_yaml_parse f es false (val_step v l)
unfolding conf_yaml_parse scalar_step
parse_val f v es l st = ap (λ s. conf_yaml_parse f es false (map_step s v l)) st

parse_pair_scalar :
    (f : ℕ) (k v : Text) (es : List Event) (l : Loop)
    → l.state ≡ conf_key
    → conf_yaml_parse (suc (suc f)) (scalar k ∷ scalar v ∷ es) false l
      ≡ conf_yaml_parse f es false (val_step v (key_step k l))
parse_pair_scalar f k v es l st =
    parse_key (suc f) k (scalar v ∷ es) l st ∙ parse_val f v es (key_step k l) (key_step-state k l)

parse_mapping_end :
    (f : ℕ) (es : List Event) (inseq : Bool) (l : Loop)
    → 0 < f
    → conf_yaml_parse f (mapping_end ∷ es) inseq l ≡ some (finish (pos 0) l es)
unfolding conf_yaml_parse
parse_mapping_end zero es inseq l h = absurd (omega arith)
parse_mapping_end (suc f) es inseq l h = refl

parse_sequence_end :
    (f : ℕ) (es : List Event) (inseq : Bool) (l : Loop)
    → 0 < f
    → conf_yaml_parse f (sequence_end ∷ es) inseq l ≡ some (finish (pos 0) l es)
unfolding conf_yaml_parse
parse_sequence_end zero es inseq l h = absurd (omega arith)
parse_sequence_end (suc f) es inseq l h = refl

-- A nested call that returns 0.
parse_mapping_start :
    (f : ℕ) (es later : List Event) (l sub : Loop)
    → conf_yaml_parse f es false (enter (deref l)) ≡ some (finish (pos 0) sub later)
    → conf_yaml_parse (suc f) (mapping_start ∷ es) false l
      ≡ conf_yaml_parse f later false (back l sub.parent sub.head)
unfolding conf_yaml_parse after_call finish
parse_mapping_start f es later l sub e = rw (e, after_call)

parse_sequence_start :
    (f : ℕ) (es later : List Event) (inseq : Bool) (l sub : Loop)
    → conf_yaml_parse f es true (enter (deref l)) ≡ some (finish (pos 0) sub later)
    → conf_yaml_parse (suc f) (sequence_start ∷ es) inseq l
      ≡ conf_yaml_parse f later inseq (back l sub.parent sub.head)
unfolding conf_yaml_parse after_call finish
parse_sequence_start f es later inseq l sub e = rw (e, after_call)

parse_seq_mapping :
    (f : ℕ) (es later : List Event) (l sub : Loop)
    → conf_yaml_parse f es false (enter (seq_node l.seq_idx)) ≡ some (finish (pos 0) sub later)
    → conf_yaml_parse (suc f) (mapping_start ∷ es) true l
      ≡ conf_yaml_parse f later true (back_seq l sub.parent sub.head)
unfolding conf_yaml_parse after_call finish
parse_seq_mapping f es later l sub e = rw (e, after_call)

mutual
  unfolding pair_count pair_events load_pairs pair_rounds item_rounds enter val_step back seq_step

  parse_pairs :
      (m : Pairs) (fuel f : ℕ) (rest : List Event) (l : Loop)
      → l.state ≡ conf_key
      → fuel ≡ pair_rounds m + f
      → pair_count m < fuel
      → conf_yaml_parse fuel (pair_events m rest) false l
        ≡ conf_yaml_parse f rest false (load_pairs m l)
  parse_pairs no_pair fuel f rest l st e h = ap (λ n. conf_yaml_parse n rest false l) (omega arith)
  parse_pairs (pair_scalar k v ps) zero f rest l st e h = absurd (omega arith)
  parse_pairs (pair_scalar k v ps) (suc zero) f rest l st e h = absurd (omega arith)
  parse_pairs (pair_scalar k v ps) (suc (suc n)) f rest l st e h =
      parse_pair_scalar n k v _ l st ∙ parse_pairs ps n f rest _ refl (omega arith) (omega arith)
  parse_pairs (pair_mapping k m ps) zero f rest l st e h = absurd (omega arith)
  parse_pairs (pair_mapping k m ps) (suc zero) f rest l st e h = absurd (omega arith)
  parse_pairs (pair_mapping k m ps) (suc (suc n)) f rest l st e h =
      parse_key (suc n) k _ l st
      ∙ parse_mapping_start n _ _ (key_step k l) _ (
          parse_pairs m n (n - pair_rounds m) (mapping_end ∷ pair_events ps rest) _ refl
            (omega (arith, pair_rounds-le m)) (omega arith)
          ∙ parse_mapping_end (n - pair_rounds m) (pair_events ps rest) false _
              (omega (arith, pair_rounds-le m)))
      ∙ parse_pairs ps n f rest _ refl (omega arith) (omega arith)
  parse_pairs (pair_sequence k s ps) zero f rest l st e h = absurd (omega arith)
  parse_pairs (pair_sequence k s ps) (suc zero) f rest l st e h = absurd (omega arith)
  parse_pairs (pair_sequence k s ps) (suc (suc n)) f rest l st e h =
      parse_key (suc n) k _ l st
      ∙ parse_sequence_start n _ _ false (key_step k l) _ (
          parse_items s n (n - item_rounds s) (sequence_end ∷ pair_events ps rest) _
            (omega (arith, item_rounds-le s)) (omega arith)
          ∙ parse_sequence_end (n - item_rounds s) (pair_events ps rest) true _
              (omega (arith, item_rounds-le s)))
      ∙ parse_pairs ps n f rest _ refl (omega arith) (omega arith)

  parse_items :
      (s : Items) (fuel f : ℕ) (rest : List Event) (l : Loop)
      → fuel ≡ item_rounds s + f
      → item_count s < fuel
      → conf_yaml_parse fuel (item_events s rest) true l
        ≡ conf_yaml_parse f rest true (load_items s l)
  parse_items no_item fuel f rest l e h = ap (λ n. conf_yaml_parse n rest true l) (omega arith)
  parse_items (item_scalar v is) zero f rest l e h = absurd (omega arith)
  parse_items (item_scalar v is) (suc n) f rest l e h =
      parse_item n v _ l ∙ parse_items is n f rest _ (omega arith) (omega arith)
  parse_items (item_mapping m is) zero f rest l e h = absurd (omega arith)
  parse_items (item_mapping m is) (suc n) f rest l e h =
      parse_seq_mapping n _ _ l _ (
        parse_pairs m n (n - pair_rounds m) (mapping_end ∷ item_events is rest) _ refl
          (omega (arith, pair_rounds-le m)) (omega arith)
        ∙ parse_mapping_end (n - pair_rounds m) (item_events is rest) false _
            (omega (arith, pair_rounds-le m)))
      ∙ parse_items is n f rest _ (omega arith) (omega arith)
  parse_items (item_sequence s is) zero f rest l e h = absurd (omega arith)
  parse_items (item_sequence s is) (suc n) f rest l e h =
      parse_sequence_start n _ _ true l _ (
        parse_items s n (n - item_rounds s) (sequence_end ∷ item_events is rest) _
          (omega (arith, item_rounds-le s)) (omega arith)
        ∙ parse_sequence_end (n - item_rounds s) (item_events is rest) true _
            (omega (arith, item_rounds-le s)))
      ∙ parse_items is n f rest _ (omega arith) (omega arith)

-- On the events of a mapping and its end, ConfYamlParse returns 0, leaves the events behind that
-- end, and fills the node as the structural reading does. It is given more fuel than the mapping
-- has events, its end included.
pub conf_yaml_parse-pair_events :
    (m : Pairs) (fuel : ℕ) (rest : List Event) (n : ConfNode)
    → pair_count m + 1 < fuel
    → conf_yaml_parse fuel (pair_events m (mapping_end ∷ rest)) false (enter n)
      ≡ some (finish (pos 0) (load_pairs m (enter n)) rest)
conf_yaml_parse-pair_events m fuel rest n h =
    parse_pairs m fuel (fuel - pair_rounds m) (mapping_end ∷ rest) (enter n) (entered n)
      (omega (arith, pair_rounds-le m)) (omega arith)
    ∙ parse_mapping_end (fuel - pair_rounds m) rest false _ (omega (arith, pair_rounds-le m))
