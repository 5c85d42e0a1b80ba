-- ===== src/Yaml/Returns.antt =====
-- Which documents come back from YAML as they were: src/util/yaml_to_json.cpp.
use text.Mathlib.Text.{◌==◌ as str_eq}
use text.Mathlib.TextEquality.{eq_iff}
use ability_framework.Prelude.{
  Bool-cases, inl, inr, sym, arith, String, true, false, ◌||◌, Option, none, some, ◌≡◌, refl, ap,
  ◌∙◌,
}
use ability_framework.Prelude.Int.{ℤ}
use ability_framework.Json.{
  Json, null, boolean, integer, float, string, array, object, Items, no_items, item, Fields,
  no_fields, field, get_field, is_empty, array_of_filled, object_of_filled, to_int32,
}
use ability_framework.Yaml.{
  convert_scalar, yaml_to_json, nodes_to_json, entries_to_json, json_to_yaml, items_to_yaml,
  fields_to_yaml,
}

module _ (as_int : String → Option ℤ) (as_double : String → Option ℤ) (of_int : ℤ → String)
    (of_double : ℤ → String) where
  -- A text that reads as itself.
  abbrev pub IsText : String → Type 0
  IsText s =
      ((str_eq s "true" || str_eq s "false") ≡ false) × (as_int s ≡ none) × (as_double s ≡ none)

  -- A document whose integers fit an int, whose texts read as themselves, which has no other numbers
  -- and no empty list or object, and in whose objects no key stands twice.
  unfoldable mutual
    pub IsYamlSafe : Json → Type 0
    IsYamlSafe null = Unit {0}
    IsYamlSafe (boolean b) = Unit {0}
    IsYamlSafe (integer n) = to_int32 n ≡ n
    IsYamlSafe (float x) = ⊥
    IsYamlSafe (string s) = IsText s
    IsYamlSafe (array xs) = (is_empty (array xs) ≡ false) × AreYamlSafe xs
    IsYamlSafe (object fs) = (is_empty (object fs) ≡ false) × HasYamlSafe fs

    pub AreYamlSafe : Items → Type 0
    AreYamlSafe no_items = Unit {0}
    AreYamlSafe (item x xs) = IsYamlSafe x × AreYamlSafe xs

    pub HasYamlSafe : Fields → Type 0
    HasYamlSafe no_fields = Unit {0}
    HasYamlSafe (field k v fs) = (get_field k fs ≡ none) × IsYamlSafe v × HasYamlSafe fs

  module _ (number_back : (n : ℤ) → as_int (of_int n) ≡ some n) (no_true : as_int "true" ≡ none)
      (no_false : as_int "false" ≡ none) where
    no_word_is : (w : String) (n : ℤ) → as_int w ≡ none → str_eq (of_int n) w ≡ false
    no_word_is w n e = elim (Bool-cases (str_eq (of_int n) w)) [
      | inl same ↦
          let same_text : of_int n ≡ w = (eq_iff (of_int n) w).0 same in
          let clash : some n ≡ none = sym (number_back n) ∙ ap as_int same_text ∙ e in
          ground (arith, clash)
      | inr other ↦ other
    ]

    mutual
      unfolding yaml_to_json json_to_yaml convert_scalar IsYamlSafe

      comes_back :
          (j : Json)
          → IsYamlSafe j
          → yaml_to_json as_int as_double (json_to_yaml of_int of_double j) ≡ j
      comes_back null h = refl
      comes_back (boolean true) h = refl
      comes_back (boolean false) h = refl
      comes_back (integer n) h =
          rw (h, no_word_is "true" n no_true, no_word_is "false" n no_false, number_back n) refl
      comes_back (float x) h = elim h [ ]
      comes_back (string s) (w, i, d) = rw (w, i, d) refl
      comes_back (array xs) (e, h) = rw (items_come_back xs h) (array_of_filled xs e)
      comes_back (object fs) (e, h) = rw (fields_come_back fs h) (object_of_filled fs e)

      items_come_back :
          (xs : Items)
          → AreYamlSafe xs
          → nodes_to_json as_int as_double (items_to_yaml of_int of_double xs) ≡ xs
      items_come_back no_items h = refl
      items_come_back (item x xs) (h, k) = rw (comes_back x h, items_come_back xs k) refl

      fields_come_back :
          (fs : Fields)
          → HasYamlSafe fs
          → entries_to_json as_int as_double (fields_to_yaml of_int of_double fs) ≡ fs
      fields_come_back no_fields h = refl
      fields_come_back (field k v fs) (a, h, g) = rw (fields_come_back fs g, comes_back v h, a) refl

    -- A document that is written as YAML is read back as it was, if its integers fit an int, its texts
    -- are no word or number of YAML, it has no numbers that are no integers, nor an empty list or
    -- object, and no object has a key twice. It is assumed that yaml-cpp reads back an integer that it
    -- writes, and reads no integer from "true" and "false".
    pub yaml_to_json-json_to_yaml :
        (j : Json)
        → IsYamlSafe j
        → yaml_to_json as_int as_double (json_to_yaml of_int of_double j) ≡ j
    yaml_to_json-json_to_yaml j h = comes_back j h
