-- ===== src/Json.antt =====
-- JSON documents and the operations of nlohmann::json that the program calls, with what each throws.
-- The keys of an object differ from one another; their order is not looked at.
use text.Mathlib.Text.{◌==◌ as str_eq}
use ability_framework.Prelude.{
  ℕ, ◌-◌, ◌%◌, ◌^◌, String, Bool, true, false, Option, none, some, ◌≡◌, refl, if◌then◌else◌, ltb,
}
use ability_framework.Prelude.Int.{ℤ, pos, negsuc}

-- `float` is a number that is no integer, by its value without the fraction.
mutual
  pub data Json : Type 0 where
    null : Json
    boolean : Bool → Json
    integer : ℤ → Json
    float : ℤ → Json
    string : String → Json
    array : Items → Json
    object : Fields → Json

  pub data Items : Type 0 where
    no_items : Items
    item : Json → Items → Items

  pub data Fields : Type 0 where
    no_fields : Fields
    field : String → Json → Fields → Fields

-- What ends a function early: an exception of the JSON library (`parse_error` apart from the others),
-- std::invalid_argument, another std::exception, or a step that C++ leaves undefined.
pub data Failure : Type 0 where
  json_exception : Failure
  parse_error : Failure
  invalid_argument : Failure
  other_exception : Failure
  undefined : Failure

pub data Try {ℓ} (A : Type ℓ) : Type ℓ where
  returned : A → Try A
  failed : Failure → Try A

infixl 5 ◌>>=◌
abbrev pub ◌>>=◌ {ℓ κ} : {A : Type ℓ} {B : Type κ} → Try A → (A → Try B) → Try B
returned a >>= f = f a
failed e >>= f = failed e

unfoldable pub get_field : String → Fields → Option Json
get_field k no_fields = none
get_field k (field j v fs) = if str_eq j k then some v else get_field k fs

-- `contains` and `find`: nothing is in what is no object.
abbrev pub find_in : String → Json → Option Json
find_in k (object fs) = get_field k fs
find_in k _ = none

-- `empty()`
abbrev pub is_empty : Json → Bool
is_empty null = true
is_empty (array no_items) = true
is_empty (object no_fields) = true
is_empty _ = false

-- `get<std::string>()`
abbrev pub get_string : Json → Try String
get_string (string s) = returned s
get_string _ = failed json_exception

-- The int that a number is cut to.
abbrev pub signed : ℕ → ℤ
signed n = if ltb n (2 ^ 31) then pos n else negsuc (2 ^ 32 - 1 - n)

abbrev pub to_int32 : ℤ → ℤ
to_int32 (pos n) = signed (n % 2 ^ 32)
to_int32 (negsuc n) = signed (2 ^ 32 - 1 - n % 2 ^ 32)

-- `get<int>()`
abbrev pub get_int : Json → Try ℤ
get_int (integer n) = returned (to_int32 n)
get_int (float n) = returned (to_int32 n)
get_int (boolean true) = returned (pos 1)
get_int (boolean false) = returned (pos 0)
get_int _ = failed json_exception

-- `j[key]` of a const object: the key has to be there.
abbrev pub present : Option Json → Try Json
present none = failed undefined
present (some v) = returned v

abbrev pub const_field : String → Json → Try Json
const_field k (object fs) = present (get_field k fs)
const_field k _ = failed json_exception

-- `j[0]` of an array, where null is taken in for a missing element.
abbrev pub first : Items → Json
first no_items = null
first (item x xs) = x

-- `json res;` filled by push_back or by keys: null, when nothing is put in.
abbrev pub array_of : Items → Json
array_of no_items = null
array_of (item x xs) = array (item x xs)

abbrev pub object_of : Fields → Json
object_of no_fields = null
object_of (field k v fs) = object (field k v fs)

pub array_of_filled : (xs : Items) → is_empty (array xs) ≡ false → array_of xs ≡ array xs
array_of_filled no_items h = cc
array_of_filled (item x xs) h = refl

pub object_of_filled : (fs : Fields) → is_empty (object fs) ≡ false → object_of fs ≡ object fs
object_of_filled no_fields h = cc
object_of_filled (field k v fs) h = refl
