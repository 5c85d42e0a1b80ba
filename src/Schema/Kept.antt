-- ===== src/Schema/Kept.antt =====
-- Documents that expand_intentable leaves as they are: src/resourcemgr/json_schema_utils.cpp.
use ability_framework.Prelude.{false, ◌≡◌, refl, ap}
use ability_framework.Json.{
  Json, null, boolean, integer, float, string, array, object, Items, no_items, item, Fields,
  no_fields, field, returned, is_empty, array_of_filled, object_of_filled,
}
use ability_framework.Schema.Expand.{expand_intentable, expand_items, expand_fields}
use ability_framework.Schema.Plain.{Lacks, LacksItems, LacksFields, intentable}

-- No array and no object in the document is empty.
unfoldable mutual
  pub IsFilled : Json → Type 0
  IsFilled (array xs) = (is_empty (array xs) ≡ false) × AreFilled xs
  IsFilled (object fs) = (is_empty (object fs) ≡ false) × HasFilled fs
  IsFilled _ = Unit {0}

  pub AreFilled : Items → Type 0
  AreFilled no_items = Unit {0}
  AreFilled (item x xs) = IsFilled x × AreFilled xs

  pub HasFilled : Fields → Type 0
  HasFilled no_fields = Unit {0}
  HasFilled (field j v fs) = IsFilled v × HasFilled fs

mutual
  unfolding IsFilled Lacks expand_intentable

  kept : (j : Json) → Lacks intentable j → IsFilled j → expand_intentable j ≡ returned j
  kept null l h = refl
  kept (boolean b) l h = refl
  kept (integer n) l h = refl
  kept (float n) l h = refl
  kept (string s) l h = refl
  kept (array xs) l (e, h) = rw (kept_items xs l h) (ap returned (array_of_filled xs e))
  kept (object fs) (a, l) (e, h) = rw (a, kept_fields fs l h) (ap returned (object_of_filled fs e))

  pub kept_items :
      (xs : Items) → LacksItems intentable xs → AreFilled xs → expand_items xs ≡ returned xs
  kept_items no_items l h = refl
  kept_items (item x xs) (l, m) (h, k) = rw (kept x l h, kept_items xs m k) refl

  kept_fields :
      (fs : Fields) → LacksFields intentable fs → HasFilled fs → expand_fields fs ≡ returned fs
  kept_fields no_fields l h = refl
  kept_fields (field k v fs) (l, m) (h, g) = rw (kept v l h, kept_fields fs m g) refl

-- A document without x-intentable, in which no array and no object is empty, is expanded to itself.
pub expand_intentable-kept :
    (j : Json) → Lacks intentable j → IsFilled j → expand_intentable j ≡ returned j
expand_intentable-kept j l h = kept j l h
