-- ===== src/Schema/Expand.antt =====
-- expand_intentable of src/resourcemgr/json_schema_utils.cpp.
use ability_framework.Prelude.{Option, none, some, if◌then◌else◌}
use ability_framework.Json.{
  Json, null, boolean, integer, float, string, array, object, Items, no_items, item, Fields,
  no_fields, field, invalid_argument, Try, returned, failed, ◌>>=◌, get_field, is_empty, array_of,
  object_of,
}

-- A value or an intent of the schema, of which the value is required.
abbrev pub value_and_intent : Json → Json
value_and_intent inner = object (
    field "type" (string "object") (
      field "properties" (object (field "value" inner (field "intent" inner no_fields)))
        (field "required" (array (item (string "value") no_items)) no_fields)))

abbrev pub with_intent : Json → Try Json
with_intent inner =
    if is_empty inner then failed invalid_argument else returned (value_and_intent inner)

-- An object, from its x-intentable and from its fields when they are expanded.
abbrev pub expanded : Option Json → Try Fields → Try Json
expanded (some inner) fields = with_intent inner
expanded none fields = fields >>= λ fs. returned (object_of fs)

-- An array or an object in which nothing is left becomes null.
unfoldable mutual
  pub expand_intentable : Json → Try Json
  expand_intentable null = returned null
  expand_intentable (boolean b) = returned (boolean b)
  expand_intentable (integer n) = returned (integer n)
  expand_intentable (float n) = returned (float n)
  expand_intentable (string s) = returned (string s)
  expand_intentable (array xs) = expand_items xs >>= λ ys. returned (array_of ys)
  expand_intentable (object fs) = expanded (get_field "x-intentable" fs) (expand_fields fs)

  pub expand_items : Items → Try Items
  expand_items no_items = returned no_items
  expand_items (item x xs) =
      expand_intentable x >>= λ y. expand_items xs >>= λ ys. returned (item y ys)

  pub expand_fields : Fields → Try Fields
  expand_fields no_fields = returned no_fields
  expand_fields (field k v fs) =
      expand_intentable v >>= λ w. expand_fields fs >>= λ ws. returned (field k w ws)
