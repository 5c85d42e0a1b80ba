-- ===== src/Schema/Tests.antt =====
-- The theorems about src/resourcemgr/json_schema_utils.cpp at concrete inputs.
use ability_framework.Prelude.{String, Bool, true, false, none, [], ◌∷◌, ◌≡◌, ◌↔◌, refl, All}
use ability_framework.Json.{
  is_empty, Json, string, array, object, no_items, item, no_fields, field, returned, ◌>>=◌,
  get_field,
}
use ability_framework.Schema.Expand.{expand_intentable}
use ability_framework.Schema.Refs.{
  manifest, missing, expand_ref, value_at, walk, schema_path, sub_ability_crd,
}
use ability_framework.Schema.Plain.{Lacks, intentable, IsFlat, expand_intentable-Lacks}
use ability_framework.Schema.Kept.{IsFilled}
use ability_framework.Schema.Hidden.{Hides, expand_ref_hidden}
use ability_framework.Schema.Tasks.{validate_cr_tasks_field}
use ability_framework.Schema.Declared.{UsesDeclared, validate_cr_tasks_field_iff}
use ability_framework.Schema.Validate.{
  CrDocument, SubAbility, full_schema, manifests_of, check_subs, expanded_checks,
  validate_with_expanded_crd, put_field,
}
use ability_framework.Schema.Checked.{IsChecked, validate_with_expanded_crd-IsChecked}

abbrev single : String → Json → Json
single k v = object (field k v no_fields)

abbrev number_schema : Json
number_schema = single "type" (string "number")

abbrev speed_schema : Json
speed_schema = single "speed" (single "x-intentable" number_schema)

speed_IsFlat : IsFlat speed_schema
unfolding IsFlat Lacks get_field
speed_IsFlat = ((refl, (refl, (tt, tt))), tt)

expand_intentable-Lacks_example :
    (j : Json) × (expand_intentable speed_schema ≡ returned j) × Lacks intentable j
expand_intentable-Lacks_example = expand_intentable-Lacks speed_schema speed_IsFlat

abbrev one_of_refs : Json
one_of_refs = single "anyOf" (array (item (single "x-ref" (string "nowhere")) no_items))

one_of_refs_fit : Hides one_of_refs × Lacks intentable one_of_refs × IsFilled one_of_refs
unfolding Hides Lacks IsFilled get_field
one_of_refs_fit = (
  (refl, (tt, tt)),
  (refl, (((refl, (tt, tt)), tt), tt)),
  (refl, ((refl, ((refl, (tt, tt)), tt)), tt)),
)

expand_ref_hidden_example :
    (expand_intentable one_of_refs >>= λ plain. expand_ref [] plain) ≡ returned one_of_refs
expand_ref_hidden_example =
    let (h, l, f) = one_of_refs_fit in expand_ref_hidden [] one_of_refs h l f

abbrev named_task : Json
named_task = single "taskName" (string "move")

abbrev one_task : Json
one_task = array (item named_task no_items)

validate_cr_tasks_field_iff_example :
    (validate_cr_tasks_field (single "spec" (single "tasks" one_task)) one_task ≡ none)
    ↔ UsesDeclared (single "spec" (single "tasks" one_task)) one_task
validate_cr_tasks_field_iff_example =
    validate_cr_tasks_field_iff (single "spec" (single "tasks" one_task)) one_task

abbrev crd : Json
crd = single "spec" (single "schema" (single "openAPIV3Schema" number_schema))

abbrev arm : SubAbility
arm = record {
  document = string "arm";
  file = manifest (single "schema" (single "openAPIV3Schema" number_schema));
}

abbrev robot : CrDocument
robot = record {
  document = string "robot";
  kind = "ComposeAbility";
  file = missing;
  subs = arm ∷ [];
}

abbrev accepts : Json → Json → Bool
accepts target schema = true

robot_passes : validate_with_expanded_crd accepts robot crd ≡ returned none
unfolding validate_with_expanded_crd expanded_checks value_at walk get_field full_schema
    expand_intentable expand_ref put_field check_subs sub_ability_crd
robot_passes = refl

validate_with_expanded_crd-IsChecked_example :
    (schema full : Json) × (value_at schema_path crd ≡ returned schema)
    × (is_empty schema ≡ false)
    × (full_schema (manifests_of robot) schema ≡ returned full)
    × (accepts robot.document full ≡ true)
    × All (IsChecked accepts) robot.subs
validate_with_expanded_crd-IsChecked_example =
    validate_with_expanded_crd-IsChecked accepts robot crd refl robot_passes
