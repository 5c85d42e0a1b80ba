-- ===== src/Schema/Validate.antt =====
-- The validation of documents in src/resourcemgr/json_schema_utils.cpp: validate_with_expanded_crd,
-- check_abstract_ability_cr_validity and validate_cr_manifest_level.
use text.Mathlib.Text.{◌==◌ as str_eq}
use ability_framework.Prelude.{String, Bool, Option, none, some, List, [], ◌∷◌, if◌then◌else◌, map}
use ability_framework.Json.{
  Json, string, array, object, no_items, item, Fields, no_fields, field, Failure, undefined, Try,
  returned, failed, ◌>>=◌, get_field, find_in, is_empty,
}
use ability_framework.Schema.Expand.{expand_intentable}
use ability_framework.Schema.Refs.{
  ManifestFile, missing, unreadable, manifest, value_at, schema_path, open_schema, sub_ability_crd,
  expand_ref,
}

-- A subability with the manifest of its package.
pub record SubAbility : Type 0 where
  pub document : Json
  pub file : ManifestFile

-- What is read of a CR: its document, its kind, the manifest of its package, and its subabilities.
pub record CrDocument : Type 0 where
  pub document : Json
  pub kind : String
  pub file : ManifestFile
  pub subs : List SubAbility

-- The texts of the errors; `caught` is that of an exception.
pub data Refusal : Type 0 where
  no_schema : Refusal
  invalid : Refusal
  no_interface : Refusal
  interface_no_text : Refusal
  unreadable_manifest : Refusal
  caught : Failure → Refusal

-- A check that ends; `none` is the success.
abbrev pub Check : Type 0
Check = Try (Option Refusal)

-- `catch (std::exception&)`
abbrev pub catching : Check → Check
catching (returned r) = returned r
catching (failed undefined) = failed undefined
catching (failed e) = returned (some (caught e))

-- After a check that has passed, the next.
abbrev pub and_then : Option Refusal → Check → Check
and_then none next = next
and_then (some r) next = returned (some r)

-- make_status_in_crd_optional
unfoldable pub put_field : String → Json → Fields → Fields
put_field k v no_fields = field k v no_fields
put_field k v (field j w fs) = if str_eq j k then field k v fs else field j w (put_field k v fs)

abbrev pub nullable : Json → Json
nullable status = object (
    field "anyOf"
      (array (item (object (field "type" (string "null") no_fields)) (item status no_items)))
      no_fields)

abbrev pub with_status : Option Json → Fields → Fields → Fields
with_status none properties fs = fs
with_status (some status) properties fs =
    put_field "properties" (object (put_field "status" (nullable status) properties)) fs

abbrev pub with_properties : Option Json → Fields → Fields
with_properties (some (object properties)) fs =
    with_status (get_field "status" properties) properties fs
with_properties _ fs = fs

abbrev pub make_status_optional : Json → Json
make_status_optional (object fs) = object (with_properties (get_field "properties" fs) fs)
make_status_optional j = j

-- The schema of the validator: expanded, and with a status that may be null.
unfoldable pub full_schema : List ManifestFile → Json → Try Json
full_schema manifests schema = expand_intentable schema >>= λ plain.
    expand_ref manifests plain >>= λ full. returned (make_status_optional full)

abbrev pub manifests_of : CrDocument → List ManifestFile
manifests_of cr = map (λ (s : SubAbility). s.file) cr.subs

-- Whether a document, the first, satisfies a schema.
module _ (validates : Json → Json → Bool) where
  -- validate_to_expected
  abbrev pub validate_to_expected : Json → Json → Option Refusal
  validate_to_expected target schema = if validates target schema then none else some invalid

  -- The loop over the subabilities of a composed ability.
  abbrev pub check_sub : SubAbility → Json → Check → Check
  check_sub s schema next =
      if is_empty schema
      then returned (some no_schema)
      else and_then (validate_to_expected s.document schema) next

  unfoldable pub check_subs : List SubAbility → Check
  check_subs [] = returned none
  check_subs (s ∷ ss) =
      let rest = check_subs ss in
      let crd = sub_ability_crd s.file in
      if is_empty crd
      then rest
      else (expand_intentable crd >>= λ full.
          value_at schema_path full >>= λ schema. check_sub s schema rest)

  unfoldable pub check_implementations : Json → List SubAbility → Check
  check_implementations schema [] = returned none
  check_implementations schema (s ∷ ss) =
      and_then (validate_to_expected s.document schema) (check_implementations schema ss)

  -- check_abstract_ability_cr_validity: it does not read the name of the interface.
  abbrev pub check_against : List SubAbility → Option Json → Check
  check_against subs none = returned none
  check_against subs (some j) = expand_intentable j >>= λ schema.
      if is_empty schema then returned (some no_schema) else check_implementations schema subs

  abbrev pub check_abstract : ManifestFile → List SubAbility → Check
  check_abstract missing subs = returned none
  check_abstract unreadable subs = returned (some unreadable_manifest)
  check_abstract (manifest j) subs = check_against subs (open_schema (find_in "schema" j))

  abbrev pub interface_path : List String
  interface_path = "depends" ∷ "subabilities" ∷ "x-implement" ∷ []

  abbrev pub check_interface : CrDocument → Json → Check
  check_interface cr (string name) =
      if is_empty (string name)
      then returned (some no_interface)
      else check_abstract cr.file cr.subs
  check_interface cr j =
      if is_empty j then returned (some no_interface) else returned (some interface_no_text)

  abbrev pub check_composed : CrDocument → Check
  check_composed cr = if str_eq cr.kind "ComposeAbility" then check_subs cr.subs else returned none

  abbrev pub check_implemented : CrDocument → Json → Check
  check_implemented cr crd =
      if str_eq cr.kind "AbstractAbility"
      then (value_at interface_path crd >>= λ j. check_interface cr j)
      else returned none

  -- With the ability's own schema, before and after it is expanded.
  abbrev pub check_full : CrDocument → Json → Json → Check
  check_full cr crd full =
      and_then (validate_to_expected cr.document full)
        (check_composed cr >>= λ r. and_then r (check_implemented cr crd))

  abbrev pub check_schema : CrDocument → Json → Json → Check
  check_schema cr crd schema =
      if is_empty schema
      then returned (some no_schema)
      else (full_schema (manifests_of cr) schema >>= λ full. check_full cr crd full)

  unfoldable pub expanded_checks : CrDocument → Json → Check
  expanded_checks cr crd = value_at schema_path crd >>= λ schema. check_schema cr crd schema

  unfoldable pub validate_with_expanded_crd : CrDocument → Json → Check
  validate_with_expanded_crd cr crd = catching (expanded_checks cr crd)

  -- From the openAPIV3Schema of the manifest.
  unfoldable pub validate_cr_manifest_level : CrDocument → Json → Check
  validate_cr_manifest_level cr schema =
      if is_empty schema
      then returned none
      else catching (
          full_schema (manifests_of cr) schema >>= λ full.
          returned (validate_to_expected cr.document full))
