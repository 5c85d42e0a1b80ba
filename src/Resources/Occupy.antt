-- ===== src/Resources/Occupy.antt =====
-- occupy_ability, occupy_device, unoccupy_ability and unoccupy_device of
-- src/resourcemgr/resource_mgr.cpp.
use ability_framework.Prelude.{
  ℕ, String, Bool, true, false, Option, none, some, List, [], ◌∷◌, ◌==◌, not, if◌then◌else◌, Map,
  find, uuid_key, is_some,
}
use ability_framework.Resources.Tables.{
  Kind, ability, device, OwnershipMode, unique, shared, Ownership, AbilitySpec, AbilityCr,
  Resources, judge_ability_exist, judge_device_exist, resolve_ability_cr_by_id, get_device_cr,
}
use ability_framework.Resources.Ownership.{
  get_ability_sharers, get_ability_owner, get_device_owner, add_ability_sharers, add_ability_owner,
  remove_ability_sharer, remove_device_sharer, remove_ability_owner, remove_device_owner,
}

-- The texts of the errors.
pub data OccupyError : Type 0 where
  no_such_ability : OccupyError
  no_ability_spec : OccupyError
  no_such_device : OccupyError
  sharer_of_unique : OccupyError
  owner_of_unique : OccupyError
  owner_of_shared : OccupyError
  post_error : OccupyError
  remote_error : OccupyError

-- expected<void, std::string>; `raised` is the exception of `value()` on a missing document.
pub data Outcome : Type 0 where
  ok : Outcome
  unexpected : OccupyError → Outcome
  raised : Outcome

pub data Method : Type 0 where
  occupy : Method
  unoccupy : Method

-- A request to the framework at a position. A request to occupy carries the occupant's own position.
pub record RemoteRequest : Type 0 where
  pub position : String
  pub method : Method
  pub kind : Kind
  pub parent : ℕ
  pub parent_position : Option String
  pub child : ℕ
  pub mode : OwnershipMode

abbrev pub is_empty : Map ℕ String → Bool
is_empty [] = true
is_empty (e ∷ m) = false

-- The part of occupy_ability and occupy_device for a local resource: from the owner that was found,
-- the sharers, and the table.
unfoldable pub occupy_owned : ℕ → OwnershipMode → ℕ → Outcome
occupy_owned parent mode owner =
    if owner == parent
    then ok
    else elim mode [ shared ↦ unexpected sharer_of_unique | unique ↦ unexpected owner_of_unique ]

unfoldable pub occupy_shared :
    ℕ → String → ℕ → OwnershipMode → Map ℕ String → List Ownership → Outcome × List Ownership
occupy_shared parent position child unique sharers os =
    if is_empty sharers
    then (ok, add_ability_owner parent child position os)
    else (unexpected owner_of_shared, os)
occupy_shared parent position child shared sharers os =
    if is_some (find parent sharers)
    then (ok, os)
    else (ok, add_ability_sharers parent child position os)

unfoldable pub occupy_local :
    Option (ℕ × String) → ℕ → String → ℕ → OwnershipMode → List Ownership → Outcome × List Ownership
occupy_local (some (owner, addr)) parent position child mode os =
    (occupy_owned parent mode owner, os)
occupy_local none parent position child mode os =
    occupy_shared parent position child mode (get_ability_sharers child os) os

unfoldable pub remote_outcome : Option Bool → Outcome
remote_outcome none = unexpected post_error
remote_outcome (some true) = ok
remote_outcome (some false) = unexpected remote_error

abbrev pub remote_request :
    String → Method → Kind → ℕ → Option String → ℕ → OwnershipMode → RemoteRequest
remote_request position method kind parent parent_position child mode = record {
  position = position;
  method = method;
  kind = kind;
  parent = parent;
  parent_position = parent_position;
  child = child;
  mode = mode;
}

abbrev pub spec_of : Option AbilityCr → Option AbilitySpec
spec_of none = none
spec_of (some cr) = cr.spec

-- The answer of another framework, as a bool.
abbrev pub is_success : Option Bool → Bool
is_success none = false
is_success (some b) = b

unfoldable pub remove_ability : ℕ → ℕ → OwnershipMode → List Ownership → List Ownership
remove_ability parent child shared os = remove_ability_sharer parent child os
remove_ability parent child unique os = remove_ability_owner parent child os

unfoldable pub remove_device : ℕ → ℕ → OwnershipMode → List Ownership → List Ownership
remove_device parent child shared os = remove_device_sharer parent child os
remove_device parent child unique os = remove_device_owner parent child os

-- Whether an address is this machine's, and what another framework answers: `none` if the request
-- fails, otherwise whether its `result` is "success".
module _ (is_local : String → Bool) (post : RemoteRequest → Option Bool) where
  unfoldable pub occupy_at :
      String → ℕ → String → ℕ → OwnershipMode → Resources → Outcome × Resources
  occupy_at place parent position child mode r =
      if is_local place
      then (let (res, os) =
            occupy_local (get_ability_owner child r.ownership) parent position child mode
              r.ownership in
          (res, record r { ownership = os }))
      else (
        remote_outcome
            (post (remote_request place occupy ability parent (some position) child mode)),
        r,
      )

  unfoldable pub occupy_ability : ℕ → String → ℕ → OwnershipMode → Resources → Outcome × Resources
  occupy_ability parent position child mode r =
      if not (judge_ability_exist child r)
      then (unexpected no_such_ability, r)
      else elim (spec_of (resolve_ability_cr_by_id child r)) [
        | none ↦ (unexpected no_ability_spec, r)
        | some spec ↦ occupy_at spec.position parent position child mode r
      ]

  -- It asks for the owner under the kind "device", and then reads and writes under "ability".
  unfoldable pub occupy_device_at :
      String → ℕ → String → ℕ → OwnershipMode → Resources → Outcome × Resources
  occupy_device_at place parent position child mode r =
      if is_local place
      then (let (res, os) =
            occupy_local (get_device_owner child r.ownership) parent position child mode
              r.ownership in
          (res, record r { ownership = os }))
      else (
        remote_outcome
            (post (remote_request place occupy device parent (some position) child mode)),
        r,
      )

  unfoldable pub occupy_device : ℕ → String → ℕ → OwnershipMode → Resources → Outcome × Resources
  occupy_device parent position child mode r =
      if not (judge_device_exist child r)
      then (unexpected no_such_device, r)
      else elim (get_device_cr child r) [
        | none ↦ (raised, r)
        | some cr ↦ occupy_device_at cr.position parent position child mode r
      ]

  unfoldable pub unoccupy_ability : ℕ → ℕ → OwnershipMode → Resources → Bool × Resources
  unoccupy_ability parent child mode r =
      if not (judge_ability_exist child r)
      then (false, r)
      else elim (spec_of (resolve_ability_cr_by_id child r)) [
        | none ↦ (false, r)
        | some spec ↦
            if is_local spec.position
            then (true, record r { ownership = remove_ability parent child mode r.ownership })
            else (
              is_success
                  (post (remote_request spec.position unoccupy ability parent none child mode)),
              r,
            )
      ]

  -- `none` is the exception of `value()` on a missing document.
  unfoldable pub unoccupy_device : ℕ → ℕ → OwnershipMode → Resources → Option Bool × Resources
  unoccupy_device parent child mode r =
      if not (judge_device_exist child r) then (some false, r) else elim (get_device_cr child r) [
        | none ↦ (none, r)
        | some cr ↦
            if is_local cr.position
            then (some true, record r { ownership = remove_device parent child mode r.ownership })
            else (
              some (
                  is_success
                    (post (remote_request cr.position unoccupy device parent none child mode))),
              r,
            )
      ]
