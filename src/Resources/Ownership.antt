-- ===== src/Resources/Ownership.antt =====
-- The queries and the writes of the table CROwnership: src/resourcemgr/resource_mgr.cpp.
use ability_framework.Prelude.{
  ℕ, String, Bool, Option, none, some, List, [], ◌∷◌, ◌++◌, ◌==◌, ◌&&◌, if◌then◌else◌, Map, insert,
  uuid_key,
}
use ability_framework.Resources.Tables.{
  Kind, ability, device, OwnershipMode, unique, shared, same_mode, same_kind, Ownership,
}

-- `WHERE parent_kind = ? and child_id = ? and child_kind = ? and is_shared = ?`
abbrev pub is_selected : Kind → ℕ → Kind → OwnershipMode → Ownership → Bool
is_selected pk child ck mode o =
    same_kind o.parent_kind pk
    && (o.child_id == child && (same_kind o.child_kind ck && same_mode o.is_shared mode))

-- `SELECT parent_id, parent_address`
unfoldable pub select : Kind → ℕ → Kind → OwnershipMode → List Ownership → List (ℕ × String)
select pk child ck mode [] = []
select pk child ck mode (o ∷ os) =
    let rest = select pk child ck mode os in
    if is_selected pk child ck mode o then (o.parent_id, o.parent_address) ∷ rest else rest

-- db_execute_to_id_str_map: `res[id] = addr` row by row.
unfoldable pub to_id_str_map : List (ℕ × String) → Map ℕ String → Map ℕ String
to_id_str_map [] res = res
to_id_str_map ((id, addr) ∷ rows) res = to_id_str_map rows (insert id addr res)

abbrev pub first_row : List (ℕ × String) → Option (ℕ × String)
first_row [] = none
first_row (o ∷ os) = some o

unfoldable pub get_ability_sharers : ℕ → List Ownership → Map ℕ String
get_ability_sharers child os = to_id_str_map (select ability child ability shared os) []

unfoldable pub get_device_sharers : ℕ → List Ownership → Map ℕ String
get_device_sharers child os = to_id_str_map (select device child device shared os) []

unfoldable pub get_ability_owner : ℕ → List Ownership → Option (ℕ × String)
get_ability_owner child os = first_row (select ability child ability unique os)

unfoldable pub get_device_owner : ℕ → List Ownership → Option (ℕ × String)
get_device_owner child os = first_row (select device child device unique os)

-- The primary key.
abbrev pub same_key : Ownership → Ownership → Bool
same_key a b =
    a.parent_id == b.parent_id
    && (same_kind a.parent_kind b.parent_kind
        && (a.child_id == b.child_id && same_kind a.child_kind b.child_kind))

unfoldable pub without_key : Ownership → List Ownership → List Ownership
without_key n [] = []
without_key n (o ∷ os) = let rest = without_key n os in if same_key o n then rest else o ∷ rest

-- `REPLACE INTO CROwnership`
unfoldable pub replace_into : Ownership → List Ownership → List Ownership
replace_into n os = without_key n os ++ n ∷ []

abbrev pub row : ℕ → ℕ → Kind → String → OwnershipMode → Ownership
row id child ck position mode = record {
  parent_id = id;
  parent_kind = ability;
  parent_address = position;
  child_id = child;
  child_kind = ck;
  is_shared = mode;
}

unfoldable pub add_ability_sharers : ℕ → ℕ → String → List Ownership → List Ownership
add_ability_sharers id child position = replace_into (row id child ability position shared)

unfoldable pub add_device_sharers : ℕ → ℕ → String → List Ownership → List Ownership
add_device_sharers id child position = replace_into (row id child device position shared)

unfoldable pub add_ability_owner : ℕ → ℕ → String → List Ownership → List Ownership
add_ability_owner id child position = replace_into (row id child ability position unique)

unfoldable pub add_device_owner : ℕ → ℕ → String → List Ownership → List Ownership
add_device_owner id child position = replace_into (row id child device position unique)

abbrev pub is_deleted : ℕ → ℕ → Kind → OwnershipMode → Ownership → Bool
is_deleted id child ck mode o =
    o.parent_id == id
    && (o.child_id == child && (same_kind o.child_kind ck && same_mode o.is_shared mode))

-- _impl_remove_ownership
unfoldable pub remove_ownership : ℕ → ℕ → Kind → OwnershipMode → List Ownership → List Ownership
remove_ownership id child ck mode [] = []
remove_ownership id child ck mode (o ∷ os) =
    let rest = remove_ownership id child ck mode os in
    if is_deleted id child ck mode o then rest else o ∷ rest

unfoldable pub remove_ability_sharer : ℕ → ℕ → List Ownership → List Ownership
remove_ability_sharer id child = remove_ownership id child ability shared

unfoldable pub remove_device_sharer : ℕ → ℕ → List Ownership → List Ownership
remove_device_sharer id child = remove_ownership id child device shared

unfoldable pub remove_ability_owner : ℕ → ℕ → List Ownership → List Ownership
remove_ability_owner id child = remove_ownership id child ability unique

unfoldable pub remove_device_owner : ℕ → ℕ → List Ownership → List Ownership
remove_device_owner id child = remove_ownership id child device unique
