-- ===== src/Tests/Yaml.antt =====
-- utils/conf-yaml-loader.c at concrete inputs.
use mmdd_pro.Common.{
  ℕ, zero, suc, ◌+◌, ◌-◌, ◌≤◌, ◌<◌, ◌≡◌, ◌≢◌, refl, Bool, true, false, List, [], ◌∷◌, ◌++◌, Option,
  none, some, arith, length, take, All, Text, codes, ℤ, pos, minus_one, get_elem?,
}
use mmdd_pro.Conf.Node.{ConfNode, Fields, Forest, end, child, new_fields, conf_node_new}
use mmdd_pro.Conf.Lookup.{Run, done, tokens, conf_get_node, conf_get}
use mmdd_pro.Conf.Remove.{conf_remove, dangling}
use mmdd_pro.Yaml.{
  Event, scalar, mapping_end, stream_end, other, conf_yaml_parse, enter, finish, conf_yaml_load,
}
use mmdd_pro.Yaml.Document.{
  Pairs, no_pair, pair_scalar, pair_sequence, no_item, item_mapping, load_pairs,
}
use mmdd_pro.Yaml.File.{file_events, conf_yaml_load_file}
use mmdd_pro.Yaml.Unlinked.{conf_remove-conf_yaml_load}
use mmdd_pro.Yaml.{mapping_start, Parsed}
use mmdd_pro.Common.{◌↔◌}
use mmdd_pro.Common.{set}

abbrev document : Pairs
document = pair_scalar (codes "a_b") (codes "1") (
    pair_sequence (codes "c") (item_mapping (pair_scalar (codes "d") (codes "2") no_pair) no_item)
      no_pair)

conf_yaml_load_file_example :
    conf_yaml_load (file_events (some (1, 1)) document) conf_node_new
    ≡ some (finish (pos 0) (load_pairs document (enter conf_node_new)) [])
conf_yaml_load_file_example = conf_yaml_load_file document conf_node_new

abbrev small_document : Pairs
small_document = pair_scalar (codes "a") (codes "1") no_pair

abbrev loaded : Parsed
loaded = finish (pos 0) (load_pairs small_document (enter conf_node_new)) []

conf_remove-conf_yaml_load_example :
    conf_remove (record conf_node_new { fields = loaded.parent; head = loaded.head }) (codes "a")
    ≡ dangling
unfolding finish enter load_pairs mmdd_pro.Yaml.key_step mmdd_pro.Yaml.val_step mmdd_pro.Yaml.mangle
    mmdd_pro.Yaml.deref mmdd_pro.Yaml.put_kid mmdd_pro.Yaml.kid_at mmdd_pro.Yaml.store
    mmdd_pro.Yaml.index_of mmdd_pro.Yaml.forest_size mmdd_pro.Yaml.parent_node
    mmdd_pro.Yaml.name_parent conf_get_node tokens mmdd_pro.Conf.Lookup.walk
    mmdd_pro.Conf.Node.conf_node_lookup_child mmdd_pro.Conf.Node.insert_tail mmdd_pro.Common.text_eq
conf_remove-conf_yaml_load_example =
    conf_remove-conf_yaml_load (file_events (some (1, 1)) small_document) conf_node_new (codes "a")
      loaded refl refl (conf_yaml_load_file small_document conf_node_new) refl
