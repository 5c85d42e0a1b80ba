-- ===== src/Yaml/Tests.antt =====
-- Documents that come back from YAML, at concrete data.
use Prim.Native.Char.{code}
use ability_framework.Prelude.{String, true, Option, none, some, ◌≡◌, refl, ap, ◌==◌, if◌then◌else◌}
use ability_framework.Prelude.Int.{ℤ, pos, negsuc}
use ability_framework.Uuids.{tally_of, tally_in, tally_in-tally_of}
use ability_framework.Json.{
  Json, null, boolean, integer, string, array, object, no_items, item, no_fields, field, get_field,
}
use ability_framework.Yaml.{yaml_to_json, json_to_yaml}
use ability_framework.Yaml.Returns.{IsYamlSafe, yaml_to_json-json_to_yaml}

-- Integers as texts whose first letter is the sign.
abbrev written : ℤ → String
written (pos n) = String.◌∷◌ "p" (tally_of n)
written (negsuc n) = String.◌∷◌ "n" (tally_of n)

abbrev read : String → Option ℤ
read String.[] = none
read (String.◌∷◌ c s) =
    if code c == b'p'
    then some (pos (tally_in s))
    else if code c == b'n'
    then some (negsuc (tally_in s))
    else none

read-written : (n : ℤ) → read (written n) ≡ some n
read-written (pos n) = ap (λ m. some (pos m)) (tally_in-tally_of n)
read-written (negsuc n) = ap (λ m. some (negsuc m)) (tally_in-tally_of n)

abbrev controller : Json
controller = object (
    field "kind" (string "controller") (
      field "port" (integer (pos 8080)) (
        field "spec" (array (item (boolean true) (item null (item (string "base") no_items))))
          no_fields)))

controller-IsYamlSafe : IsYamlSafe read (λ s. none) written written controller
unfolding IsYamlSafe get_field
controller-IsYamlSafe = (
  refl,
  (
    refl,
    (refl, refl, refl),
    (refl, refl, (refl, (refl, (tt, (tt, ((refl, refl, refl), tt)))), tt)),
  ),
)

yaml_to_json-json_to_yaml_example :
    yaml_to_json read (λ s. none) (json_to_yaml written written controller) ≡ controller
yaml_to_json-json_to_yaml_example =
    yaml_to_json-json_to_yaml read (λ s. none) written written read-written refl refl controller
      controller-IsYamlSafe
