-- ===== src/Schema/Refs.antt =====
-- x-ref in src/resourcemgr/json_schema_utils.cpp: SubRefEntry, get_sub_ability_crd and expand_ref.
use Prim.Native.Char.{code}
use ability_framework.Prelude.{
  ℕ, zero, suc, ◌+◌, ◌-◌, ◌*◌, ◌^◌, String, Bool, true, false, ◌&&◌, Option, none, some, List, [],
  ◌∷◌, ◌==◌, ltb, leb, if◌then◌else◌, length, get_elem?,
}
use ability_framework.Prelude.Int.{ℤ, pos, negsuc}
use ability_framework.Json.{
  Json, null, boolean, integer, float, string, array, object, Fields, no_fields, field,
  json_exception, parse_error, invalid_argument, other_exception, Try, returned, failed, ◌>>=◌,
  get_field, find_in, is_empty, get_string, array_of, object_of,
}
use ability_framework.Schema.Expand.{expand_intentable, expand_items}

-- Whether a text begins with another, and where the first place is at which it goes on with it.
abbrev starts_with : String → String → Bool
starts_with String.[] s = true
starts_with (String.◌∷◌ a p) String.[] = false
starts_with (String.◌∷◌ a p) (String.◌∷◌ b s) = code a == code b && starts_with p s

abbrev next : Option ℕ → Option ℕ
next none = none
next (some n) = some (suc n)

unfoldable pub find_text : String → String → Option ℕ
find_text needle String.[] = if starts_with needle String.[] then some 0 else none
find_text needle (String.◌∷◌ c s) =
    let rest = next (find_text needle s) in
    if starts_with needle (String.◌∷◌ c s) then some 0 else rest

-- `substr`: `none` is std::out_of_range.
unfoldable pub drop_text : ℕ → String → Option String
drop_text zero s = some s
drop_text (suc n) String.[] = none
drop_text (suc n) (String.◌∷◌ c s) = drop_text n s

unfoldable pub take_text : ℕ → String → String
take_text zero s = String.[]
take_text (suc n) String.[] = String.[]
take_text (suc n) (String.◌∷◌ c s) = String.◌∷◌ c (take_text n s)

-- What stands after the last slash.
abbrev pub later_or : Option String → ℕ → String → Option String
later_or (some t) c s = some t
later_or none c s = if c == b'/' then some s else none

unfoldable pub after_last_slash : String → Option String
after_last_slash String.[] = none
after_last_slash (String.◌∷◌ c s) = later_or (after_last_slash s) (code c) s

-- std::from_chars for int: the digits at the start.
abbrev pub is_digit : ℕ → Bool
is_digit c = leb b'0' c && leb c b'9'

unfoldable pub read_digits : ℕ → String → ℕ
read_digits n String.[] = n
read_digits n (String.◌∷◌ c s) =
    let rest = read_digits (n * 10 + (code c - b'0')) s in if is_digit (code c) then rest else n

abbrev pub read_natural : String → Option ℕ
read_natural String.[] = none
read_natural (String.◌∷◌ c s) =
    if is_digit (code c) then some (read_digits 0 (String.◌∷◌ c s)) else none

abbrev pub positive : Option ℕ → Option ℤ
positive none = none
positive (some n) = if ltb n (2 ^ 31) then some (pos n) else none

abbrev pub negative : Option ℕ → Option ℤ
negative none = none
negative (some zero) = some (pos 0)
negative (some (suc n)) = if ltb n (2 ^ 31) then some (negsuc n) else none

unfoldable pub from_chars : String → Option ℤ
from_chars String.[] = none
from_chars (String.◌∷◌ c s) =
    if code c == b'-' then negative (read_natural s) else positive (read_natural (String.◌∷◌ c s))

-- sv_to_integer<int>
abbrev pub sv_to_integer : String → Try ℤ
sv_to_integer s = elim (from_chars s) [ none ↦ failed other_exception | some n ↦ returned n ]

-- `ref.find("/sub/") + 5`, where npos + 5 is 4: the test that follows it never fails.
abbrev pub after_sub : Option ℕ → ℕ
after_sub none = 4
after_sub (some n) = n + 5

-- `substr(l_pos, r_pos - l_pos)`, whose count is cut at the end of the text, and wraps round where
-- r_pos comes first.
abbrev pub between : ℕ → ℕ → Option String → Try String
between l r none = failed other_exception
between l r (some s) = returned (if ltb r l then s else take_text (r - l) s)

abbrev pub number_text : String → Option ℕ → Try String
number_text ref none = failed invalid_argument
number_text ref (some r) =
    let l = after_sub (find_text "/sub/" ref) in between l r (drop_text l ref)

abbrev pub sub_key_of : Option String → Try String
sub_key_of none = failed invalid_argument
sub_key_of (some key) = returned key

pub record SubRefEntry : Type 0 where
  pub number : ℤ
  pub sub_key : String

-- SubRefEntry::parse
unfoldable pub parse_ref : String → Try SubRefEntry
parse_ref ref = number_text ref (find_text "#" ref) >>= λ digits. sv_to_integer digits >>= λ n.
    sub_key_of (after_last_slash ref) >>= λ key. returned (record { number = n; sub_key = key })

-- The number of a subability as an index: a negative one is too large as a size_t.
abbrev pub index_of : ℤ → ℕ → Option ℕ
index_of (pos n) size = if leb size n then none else some n
index_of (negsuc n) size = none

-- `j.value(pointer, Empty)`, for a pointer of keys.
unfoldable pub walk : List String → Json → Try Json
walk [] j = returned j
walk (k ∷ ks) (object fs) = elim (get_field k fs) [ none ↦ returned null | some v ↦ walk ks v ]
walk (k ∷ ks) (array xs) = failed parse_error
walk (k ∷ ks) _ = returned null

unfoldable pub value_at : List String → Json → Try Json
value_at ks (object fs) = walk ks (object fs)
value_at ks _ = failed json_exception

abbrev pub schema_path : List String
schema_path = "spec" ∷ "schema" ∷ "openAPIV3Schema" ∷ []

abbrev pub status_path : List String
status_path = "properties" ∷ "status" ∷ "properties" ∷ []

-- The file ability.manifest.yaml of a package.
pub data ManifestFile : Type 0 where
  missing : ManifestFile
  unreadable : ManifestFile
  manifest : Json → ManifestFile

abbrev pub open_schema : Option Json → Option Json
open_schema none = none
open_schema (some j) = find_in "openAPIV3Schema" j

-- The document that get_sub_ability_crd makes; null without a schema.
abbrev pub compat : Option Json → Json
compat none = null
compat (some s) = object (
    field "spec" (object (field "schema" (object (field "openAPIV3Schema" s no_fields)) no_fields))
      no_fields)

unfoldable pub sub_ability_crd : ManifestFile → Json
sub_ability_crd missing = null
sub_ability_crd unreadable = null
sub_ability_crd (manifest j) = compat (open_schema (find_in "schema" j))

-- The manifests of the subabilities, in order.
module _ (manifests : List ManifestFile) where
  abbrev pub crd_of : Option ManifestFile → Json
  crd_of none = null
  crd_of (some m) = sub_ability_crd m

  abbrev pub in_status : String → Json → Try Json
  in_status key status = elim (find_in key status) [
    | none ↦ failed invalid_argument
    | some v ↦ returned v
  ]

  -- The schema of a status of the subability with an index.
  unfoldable pub status_schema : ℕ → String → Try Json
  status_schema i key = value_at schema_path (crd_of (get_elem? manifests i)) >>= λ schema.
      (if is_empty schema then failed invalid_argument else expand_intentable schema) >>= λ full.
      value_at status_path full >>= λ status. in_status key status

  unfoldable pub resolve : SubRefEntry → Try Json
  resolve entry = elim (index_of entry.number (length manifests)) [
    | none ↦ failed invalid_argument
    | some i ↦ status_schema i entry.sub_key
  ]

  unfoldable pub follow : Json → Try Json
  follow ref =
      if is_empty ref
      then failed invalid_argument
      else (get_string ref >>= λ s. parse_ref s >>= λ entry. resolve entry)

  -- An object, from its x-ref and from its fields when they are expanded.
  abbrev pub referred : Option Json → Try Fields → Try Json
  referred (some ref) fields = follow ref
  referred none fields = fields >>= λ fs. returned (object_of fs)

  -- The elements of an array go to expand_intentable, not to expand_ref.
  unfoldable mutual
    pub expand_ref : Json → Try Json
    expand_ref null = returned null
    expand_ref (boolean b) = returned (boolean b)
    expand_ref (integer n) = returned (integer n)
    expand_ref (float n) = returned (float n)
    expand_ref (string s) = returned (string s)
    expand_ref (array xs) = expand_items xs >>= λ ys. returned (array_of ys)
    expand_ref (object fs) = referred (get_field "x-ref" fs) (expand_ref_fields fs)

    pub expand_ref_fields : Fields → Try Fields
    expand_ref_fields no_fields = returned no_fields
    expand_ref_fields (field k v fs) =
        expand_ref v >>= λ w. expand_ref_fields fs >>= λ ws. returned (field k w ws)
