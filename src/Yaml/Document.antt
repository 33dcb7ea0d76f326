-- ===== src/Yaml/Document.antt =====
-- The events of a YAML node, and what ConfYamlParse (utils/conf-yaml-loader.c) makes of them: the
-- nested calls follow the nesting of the document.
use mmdd_pro.Common.{List, ◌∷◌, Text}
use mmdd_pro.Yaml.{
  Event, scalar, sequence_start, sequence_end, mapping_start, mapping_end, Loop, key_step, val_step,
  seq_step, deref, enter, seq_node, back, back_seq,
}

-- The inside of a mapping and of a sequence.
mutual
  pub data Pairs : Type 0 where
    no_pair : Pairs
    pair_scalar : Text → Text → Pairs → Pairs
    pair_mapping : Text → Pairs → Pairs → Pairs
    pair_sequence : Text → Items → Pairs → Pairs

  pub data Items : Type 0 where
    no_item : Items
    item_scalar : Text → Items → Items
    item_mapping : Pairs → Items → Items
    item_sequence : Items → Items → Items

-- The events inside, without the start and the end, in front of `rest`.
unfoldable mutual
  pub pair_events : Pairs → List Event → List Event
  pair_events no_pair rest = rest
  pair_events (pair_scalar k v ps) rest = scalar k ∷ scalar v ∷ pair_events ps rest
  pair_events (pair_mapping k m ps) rest =
      scalar k ∷ mapping_start ∷ pair_events m (mapping_end ∷ pair_events ps rest)
  pair_events (pair_sequence k s ps) rest =
      scalar k ∷ sequence_start ∷ item_events s (sequence_end ∷ pair_events ps rest)

  pub item_events : Items → List Event → List Event
  item_events no_item rest = rest
  item_events (item_scalar v is) rest = scalar v ∷ item_events is rest
  item_events (item_mapping m is) rest =
      mapping_start ∷ pair_events m (mapping_end ∷ item_events is rest)
  item_events (item_sequence s is) rest =
      sequence_start ∷ item_events s (sequence_end ∷ item_events is rest)

-- The same inside, read by structural recursion: the variables of the call afterwards.
unfoldable mutual
  pub load_pairs : Pairs → Loop → Loop
  load_pairs no_pair l = l
  load_pairs (pair_scalar k v ps) l = load_pairs ps (val_step v (key_step k l))
  load_pairs (pair_mapping k m ps) l =
      let at_key = key_step k l in
      let sub = load_pairs m (enter (deref at_key)) in
      load_pairs ps (back at_key sub.parent sub.head)
  load_pairs (pair_sequence k s ps) l =
      let at_key = key_step k l in
      let sub = load_items s (enter (deref at_key)) in
      load_pairs ps (back at_key sub.parent sub.head)

  pub load_items : Items → Loop → Loop
  load_items no_item l = l
  load_items (item_scalar v is) l = load_items is (seq_step v l)
  load_items (item_mapping m is) l =
      let sub = load_pairs m (enter (seq_node l.seq_idx)) in
      load_items is (back_seq l sub.parent sub.head)
  load_items (item_sequence s is) l =
      let sub = load_items s (enter (deref l)) in load_items is (back l sub.parent sub.head)
