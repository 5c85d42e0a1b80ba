-- ===== src/Schema/Hidden.antt =====
-- References that expand_ref leaves: src/resourcemgr/json_schema_utils.cpp.
use ability_framework.Prelude.{none, List, ◌≡◌, refl, ap}
use ability_framework.Json.{
  array_of_filled, object_of_filled, Json, null, boolean, integer, float, string, array, object,
  Fields, no_fields, field, returned, ◌>>=◌, get_field,
}
use ability_framework.Schema.Expand.{expand_intentable}
use ability_framework.Schema.Plain.{Lacks, LacksFields, intentable}
use ability_framework.Schema.Kept.{IsFilled, HasFilled, kept_items, expand_intentable-kept}
use ability_framework.Schema.Refs.{ManifestFile, expand_ref, expand_ref_fields}

-- No object has an x-ref, but for those inside arrays.
unfoldable mutual
  pub Hides : Json → Type 0
  Hides (object fs) = (get_field "x-ref" fs ≡ none) × HidesAll fs
  Hides _ = Unit {0}

  pub HidesAll : Fields → Type 0
  HidesAll no_fields = Unit {0}
  HidesAll (field k v fs) = Hides v × HidesAll fs

module _ (manifests : List ManifestFile) where
  mutual
    unfolding expand_ref Hides IsFilled Lacks

    left :
        (j : Json) → Hides j → Lacks intentable j → IsFilled j → expand_ref manifests j ≡ returned j
    left null r l h = refl
    left (boolean b) r l h = refl
    left (integer n) r l h = refl
    left (float n) r l h = refl
    left (string s) r l h = refl
    left (array xs) r l (e, h) = rw (kept_items xs l h) (ap returned (array_of_filled xs e))
    left (object fs) (a, r) (b, l) (e, h) =
        rw (a, left_fields fs r l h) (ap returned (object_of_filled fs e))

    left_fields :
        (fs : Fields)
        → HidesAll fs
        → LacksFields intentable fs
        → HasFilled fs
        → expand_ref_fields manifests fs ≡ returned fs
    left_fields no_fields r l h = refl
    left_fields (field k v fs) (q, r) (l, m) (h, g) = rw (left v q l h, left_fields fs r m g) refl

-- A document without x-intentable and without empty arrays and objects, whose x-refs all stand inside
-- arrays (under anyOf, say), is expanded to itself by both expansions: those references are neither
-- followed nor refused, whatever they name.
pub expand_ref_hidden :
    (manifests : List ManifestFile) (j : Json)
    → Hides j
    → Lacks intentable j
    → IsFilled j
    → (expand_intentable j >>= λ plain. expand_ref manifests plain) ≡ returned j
expand_ref_hidden manifests j r l h = rw (expand_intentable-kept j l h) (left manifests j r l h)
