-- ===== src/Schema/Plain.antt =====
-- What expand_intentable makes of a document: src/resourcemgr/json_schema_utils.cpp.
use ability_framework.Prelude.{String, false, Option, none, some, ◌≡◌, refl, arith}
use ability_framework.Json.{
  Json, null, boolean, integer, float, string, array, object, Items, no_items, item, Fields,
  no_fields, field, Try, returned, ◌>>=◌, get_field, is_empty, array_of, object_of,
}
use ability_framework.Schema.Expand.{
  value_and_intent, with_intent, expanded, expand_intentable, expand_items, expand_fields,
}

-- No object in the document has the key.
unfoldable mutual
  pub Lacks : String → Json → Type 0
  Lacks k (array xs) = LacksItems k xs
  Lacks k (object fs) = (get_field k fs ≡ none) × LacksFields k fs
  Lacks k _ = Unit {0}

  pub LacksItems : String → Items → Type 0
  LacksItems k no_items = Unit {0}
  LacksItems k (item x xs) = Lacks k x × LacksItems k xs

  pub LacksFields : String → Fields → Type 0
  LacksFields k no_fields = Unit {0}
  LacksFields k (field j v fs) = Lacks k v × LacksFields k fs

abbrev pub intentable : String
intentable = "x-intentable"

-- The schema of each x-intentable is not empty, and holds no x-intentable itself.
abbrev pub FlatAt : Option Json → Type 0 → Type 0
FlatAt none fields = fields
FlatAt (some inner) fields = (is_empty inner ≡ false) × Lacks intentable inner

unfoldable mutual
  pub IsFlat : Json → Type 0
  IsFlat (array xs) = AreFlat xs
  IsFlat (object fs) = FlatAt (get_field intentable fs) (HasFlat fs)
  IsFlat _ = Unit {0}

  pub AreFlat : Items → Type 0
  AreFlat no_items = Unit {0}
  AreFlat (item x xs) = IsFlat x × AreFlat xs

  pub HasFlat : Fields → Type 0
  HasFlat no_fields = Unit {0}
  HasFlat (field j v fs) = IsFlat v × HasFlat fs

-- A document without the key is what comes of the expansion.
abbrev Expands : Try Json → Type 0
Expands t = (j : Json) × (t ≡ returned j) × Lacks intentable j

abbrev ExpandsItems : Try Items → Type 0
ExpandsItems t = (xs : Items) × (t ≡ returned xs) × LacksItems intentable xs

abbrev ExpandsFields : Fields → Try Fields → Type 0
ExpandsFields fs t =
    (ws : Fields) × (t ≡ returned ws)
    × LacksFields intentable ws
    × (get_field intentable fs ≡ none → get_field intentable ws ≡ none)

array_of-Lacks : (xs : Items) → LacksItems intentable xs → Lacks intentable (array_of xs)
unfolding Lacks
array_of-Lacks no_items h = tt
array_of-Lacks (item x xs) h = h

object_of-Lacks :
    (fs : Fields)
    → get_field intentable fs ≡ none
    → LacksFields intentable fs
    → Lacks intentable (object_of fs)
unfolding Lacks
object_of-Lacks no_fields e h = tt
object_of-Lacks (field k v fs) e h = (e, h)

with_intent-Expands :
    (inner : Json) → is_empty inner ≡ false → Lacks intentable inner → Expands (with_intent inner)
unfolding Lacks get_field
with_intent-Expands inner e h =
    (value_and_intent inner, rw e refl, (refl, ((tt, ((refl, (h, (h, tt))), ((tt, tt), tt))))))

item-Expands :
    (x : Try Json) (xs : Try Items)
    → Expands x
    → ExpandsItems xs
    → ExpandsItems (x >>= λ y. xs >>= λ ys. returned (item y ys))
unfolding Lacks
item-Expands x xs (y, e, h) (ys, f, k) = (item y ys, rw (e, f) refl, (h, k))

field-Expands :
    (k : String) (v : Json) (fs : Fields) (x : Try Json) (t : Try Fields)
    → Expands x
    → ExpandsFields fs t
    → ExpandsFields (field k v fs) (x >>= λ w. t >>= λ ws. returned (field k w ws))
unfolding Lacks get_field
field-Expands k v fs x t (w, e, h) (ws, f, l, m) =
    (field k w ws, rw (e, f) refl, (h, l), λ g. ground (arith, g, m))

object-Expands :
    (fs : Fields) (o : Option Json) (t : Try Fields)
    → get_field intentable fs ≡ o
    → FlatAt o (ExpandsFields fs t)
    → Expands (expanded o t)
object-Expands fs none t e (ws, f, l, m) = (object_of ws, rw f refl, object_of-Lacks ws (m e) l)
object-Expands fs (some inner) t e (n, l) = with_intent-Expands inner n l

FlatAt-map : {A B : Type 0} (o : Option Json) → (A → B) → FlatAt o A → FlatAt o B
FlatAt-map none f h = f h
FlatAt-map (some inner) f h = h

mutual
  unfolding IsFlat Lacks expand_intentable

  expand : (j : Json) → IsFlat j → Expands (expand_intentable j)
  expand null h = (null, refl, tt)
  expand (boolean b) h = (boolean b, refl, tt)
  expand (integer n) h = (integer n, refl, tt)
  expand (float n) h = (float n, refl, tt)
  expand (string s) h = (string s, refl, tt)
  expand (array xs) h =
      let (ys, e, l) = expand_each xs h in (array_of ys, rw e refl, array_of-Lacks ys l)
  expand (object fs) h =
      object-Expands fs (get_field intentable fs) (expand_fields fs) refl
        (FlatAt-map (get_field intentable fs) (expand_all fs) h)

  expand_each : (xs : Items) → AreFlat xs → ExpandsItems (expand_items xs)
  expand_each no_items h = (no_items, refl, tt)
  expand_each (item x xs) (h, k) =
      item-Expands (expand_intentable x) (expand_items xs) (expand x h) (expand_each xs k)

  expand_all : (fs : Fields) → HasFlat fs → ExpandsFields fs (expand_fields fs)
  expand_all no_fields h = (no_fields, refl, tt, λ g. g)
  expand_all (field k v fs) (h, l) =
      field-Expands k v fs (expand_intentable v) (expand_fields fs) (expand v h) (expand_all fs l)

-- A document in which the schema of each x-intentable is not empty, and holds no x-intentable itself,
-- is expanded without an exception, and nothing that comes of it has an x-intentable, at any depth.
pub expand_intentable-Lacks :
    (j : Json) → IsFlat j → (j' : Json) × (expand_intentable j ≡ returned j') × Lacks intentable j'
expand_intentable-Lacks j h = expand j h
