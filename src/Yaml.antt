-- ===== src/Yaml.antt =====
-- Documents from YAML to JSON and back: src/util/yaml_to_json.cpp.
mod Returns
mod Tests
use text.Mathlib.Text.{◌==◌ as str_eq}
use ability_framework.Prelude.{String, Bool, true, false, ◌||◌, Option, none, some, if◌then◌else◌}
use ability_framework.Prelude.Int.{ℤ}
use ability_framework.Json.{
  Json, null, boolean, integer, float, string, array, object, Items, no_items, item, Fields,
  no_fields, field, get_field, array_of, object_of, to_int32,
}

-- A YAML::Node: null or undefined, a scalar by its text, a sequence, or a map, of whose keys only the
-- text is read. A quoted text and a plain one are the same scalar here, as the code does not ask.
mutual
  pub data Node : Type 0 where
    empty_node : Node
    scalar : String → Node
    sequence : Nodes → Node
    mapping : Entries → Node

  pub data Nodes : Type 0 where
    no_nodes : Nodes
    node : Node → Nodes → Nodes

  pub data Entries : Type 0 where
    no_entries : Entries
    entry : String → Node → Entries → Entries

-- How yaml-cpp reads numbers, and how it writes them; a double by its value without the fraction.
module _ (as_int : String → Option ℤ) (as_double : String → Option ℤ) where
  abbrev pub double_or_text : String → Option ℤ → Json
  double_or_text s (some x) = float x
  double_or_text s none = string s

  abbrev pub number_or_text : String → Option ℤ → Json
  number_or_text s (some n) = integer n
  number_or_text s none = double_or_text s (as_double s)

  unfoldable pub convert_scalar : String → Json
  convert_scalar s =
      if str_eq s "true" || str_eq s "false"
      then boolean (str_eq s "true")
      else number_or_text s (as_int s)

  -- `res[key] = value`: of equal keys the last one stays.
  abbrev pub unless_later : Option Json → String → Json → Fields → Fields
  unless_later (some w) k v fs = fs
  unless_later none k v fs = field k v fs

  unfoldable mutual
    pub yaml_to_json : Node → Json
    yaml_to_json empty_node = null
    yaml_to_json (scalar s) = convert_scalar s
    yaml_to_json (sequence xs) = array_of (nodes_to_json xs)
    yaml_to_json (mapping es) = object_of (entries_to_json es)

    pub nodes_to_json : Nodes → Items
    nodes_to_json no_nodes = no_items
    nodes_to_json (node x xs) = item (yaml_to_json x) (nodes_to_json xs)

    pub entries_to_json : Entries → Fields
    entries_to_json no_entries = no_fields
    entries_to_json (entry k x es) =
        unless_later (get_field k (entries_to_json es)) k (yaml_to_json x) (entries_to_json es)

module _ (of_int : ℤ → String) (of_double : ℤ → String) where
  abbrev pub of_bool : Bool → String
  of_bool true = "true"
  of_bool false = "false"

  -- An integer is read as an int, whatever its size.
  unfoldable mutual
    pub json_to_yaml : Json → Node
    json_to_yaml (object fs) = mapping (fields_to_yaml fs)
    json_to_yaml (array xs) = sequence (items_to_yaml xs)
    json_to_yaml (string s) = scalar s
    json_to_yaml (boolean b) = scalar (of_bool b)
    json_to_yaml (integer n) = scalar (of_int (to_int32 n))
    json_to_yaml (float x) = scalar (of_double x)
    json_to_yaml null = empty_node

    pub items_to_yaml : Items → Nodes
    items_to_yaml no_items = no_nodes
    items_to_yaml (item x xs) = node (json_to_yaml x) (items_to_yaml xs)

    pub fields_to_yaml : Fields → Entries
    fields_to_yaml no_fields = no_entries
    fields_to_yaml (field k v fs) = entry k (json_to_yaml v) (fields_to_yaml fs)
