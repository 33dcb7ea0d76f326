-- ===== src/Yaml/File.antt =====
-- ConfYamlLoadFile (utils/conf-yaml-loader.c) on the events of a whole file.
use mmdd_pro.Common.{
  ℕ, zero, suc, ◌+◌, ◌<◌, ◌≡◌, ◌≢◌, refl, ap, false, List, [], ◌∷◌, Option, none, some, arith,
  length, pos, Bool-cases, inl, inr, minus_one,
}
use mmdd_pro.Conf.Node.{ConfNode}
use mmdd_pro.Yaml.{
  Event, document_start, mapping_start, mapping_end, sequence_end, stream_end, other, enter, back,
  store, deref, finish, after_call, version_ok, conf_yaml_parse, conf_yaml_load,
}
use mmdd_pro.Yaml.Document.{
  Pairs, no_pair, pair_scalar, pair_mapping, pair_sequence, Items, no_item, item_scalar,
  item_mapping, item_sequence, pair_events, item_events, load_pairs,
}
use mmdd_pro.Yaml.Parse.{pair_count, item_count, conf_yaml_parse-pair_events}

-- A file with one document that is a mapping: the start of the stream, the document with its
-- %YAML directive, the mapping, the end of the document and the end of the stream.
pub file_events : Option (ℕ × ℕ) → Pairs → List Event
file_events version m =
    other
    ∷ document_start version
    ∷ mapping_start
    ∷ pair_events m (mapping_end ∷ other ∷ stream_end ∷ [])

mutual
  unfolding pair_count pair_events

  length-pair_events :
      (m : Pairs) (rest : List Event) → length (pair_events m rest) ≡ pair_count m + length rest
  length-pair_events no_pair rest = omega arith
  length-pair_events (pair_scalar k v ps) rest = omega (arith, length-pair_events ps rest)
  length-pair_events (pair_mapping k m ps) rest =
      omega (
        arith,
        length-pair_events m (mapping_end ∷ pair_events ps rest),
        length-pair_events ps rest,
      )
  length-pair_events (pair_sequence k s ps) rest =
      omega (
        arith,
        length-item_events s (sequence_end ∷ pair_events ps rest),
        length-pair_events ps rest,
      )

  length-item_events :
      (s : Items) (rest : List Event) → length (item_events s rest) ≡ item_count s + length rest
  length-item_events no_item rest = omega arith
  length-item_events (item_scalar v is) rest = omega (arith, length-item_events is rest)
  length-item_events (item_mapping m is) rest =
      omega (
        arith,
        length-pair_events m (mapping_end ∷ item_events is rest),
        length-item_events is rest,
      )
  length-item_events (item_sequence s is) rest =
      omega (
        arith,
        length-item_events s (sequence_end ∷ item_events is rest),
        length-item_events is rest,
      )

load_from :
    (fuel : ℕ) (m : Pairs) (root : ConfNode)
    → pair_count m + 1 < fuel
    → conf_yaml_parse (suc (suc (suc fuel))) (file_events (some (1, 1)) m) false (enter root)
      ≡ some (finish (pos 0) (load_pairs m (enter root)) [])
unfolding conf_yaml_parse file_events version_ok after_call back store deref enter finish
load_from zero m root h = absurd (omega arith)
load_from (suc zero) m root h = absurd (omega arith)
load_from (suc (suc fuel)) m root h =
    ap (after_call (back (enter root)) (λ es l. conf_yaml_parse (suc (suc fuel)) es false l))
      (conf_yaml_parse-pair_events m (suc (suc fuel)) (other ∷ stream_end ∷ []) root h)

-- A file that begins with `%YAML 1.1` and holds one mapping is loaded: the return value is 0, no
-- event is left, and the root is filled as the structural reading of the mapping fills it.
pub conf_yaml_load_file :
    (m : Pairs) (root : ConfNode)
    → conf_yaml_load (file_events (some (1, 1)) m) root
      ≡ some (finish (pos 0) (load_pairs m (enter root)) [])
unfolding conf_yaml_load file_events
conf_yaml_load_file m root =
    let n = length-pair_events m (mapping_end ∷ other ∷ stream_end ∷ []) in
    let inside = length (pair_events m (mapping_end ∷ other ∷ stream_end ∷ [])) in
    load_from (suc inside) m root (omega arith)

version_refused : (version : Option (ℕ × ℕ)) → version ≢ some (1, 1) → version_ok version ≡ false
unfolding version_ok
version_refused none h = refl
version_refused (some (major, minor)) h = elim (Bool-cases (version_ok (some (major, minor)))) [
  | inl e ↦ absurd (h (ground arith))
  | inr e ↦ e
]

-- A file with another version, or with no %YAML directive at all, is refused with -1, and the root
-- is left as it was.
pub conf_yaml_load_version :
    (version : Option (ℕ × ℕ)) (m : Pairs) (root : ConfNode)
    → version ≢ some (1, 1)
    → let unread = mapping_start ∷ pair_events m (mapping_end ∷ other ∷ stream_end ∷ []) in
      conf_yaml_load (file_events version m) root
      ≡ some (record { ret = minus_one; parent = root.fields; head = root.head; events = unread })
unfolding conf_yaml_load conf_yaml_parse file_events finish enter
conf_yaml_load_version version m root h = rw (version_refused version h)
