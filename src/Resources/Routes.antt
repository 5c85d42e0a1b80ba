-- ===== src/Resources/Routes.antt =====
-- The routes /api/cr/:id/occupation: build_api_occupation of
-- src/resourcemgr/resource_mgr_http_apis.cpp.
use text.Mathlib.Text.{◌==◌ as str_eq}
use ability_framework.Prelude.{ℕ, String, Bool, Option, none, some, if◌then◌else◌, Map}
use ability_framework.Resources.Tables.{
  OwnershipMode, unique, shared, Resources, judge_ability_exist, judge_device_exist,
}
use ability_framework.Resources.Ownership.{
  get_ability_sharers, get_ability_owner, get_device_sharers, get_device_owner,
}
use ability_framework.Resources.Occupy.{
  RemoteRequest, Outcome, ok, unexpected, raised, occupy_ability, occupy_device, unoccupy_ability,
  unoccupy_device,
}

-- What a handler throws: a ProblemDetail by its status and type, std::invalid_argument, or another
-- std::exception (of the JSON library, or of `value()`).
pub data HttpError : Type 0 where
  problem : ℕ → String → HttpError
  invalid_argument : HttpError
  other_exception : HttpError

-- `undefined` is the use of an empty std::optional.
pub data HttpReply : Type 0 where
  done : HttpReply
  occupation : Map ℕ String → Option (ℕ × String) → HttpReply
  failed : HttpError → HttpReply
  undefined : HttpReply

-- The fields of a body that is JSON; a field that is missing or no text is `none`.
pub record OccupationBody : Type 0 where
  pub occupy_id : Option String
  pub mode : Option String
  pub position : Option String

-- What a POST asks for, once its body is read.
pub data Wanted : Type 0 where
  wants : ℕ → OwnershipMode → String → Wanted
  refused : HttpError → Wanted

-- The reply after occupy_ability, with the type of its problem, and after occupy_device.
unfoldable pub reply_of : String → Outcome → HttpReply
reply_of type ok = done
reply_of type (unexpected e) = failed (problem 409 type)
reply_of type raised = failed other_exception

abbrev pub reply_of_device : Option Bool → HttpReply
reply_of_device none = failed other_exception
reply_of_device (some b) = done

unfoldable pub occupation_of : ℕ → Resources → HttpReply
occupation_of id r =
    if judge_ability_exist id r
    then occupation (get_ability_sharers id r.ownership) (get_ability_owner id r.ownership)
    else if judge_device_exist id r
    then occupation (get_device_sharers id r.ownership) (get_device_owner id r.ownership)
    else failed (problem 404 "non_exist_occupyee_cr")

-- With a text's small letters.
unfoldable pub parse_ownership_mode : (String → String) → String → Option OwnershipMode
parse_ownership_mode to_lower sv =
    if str_eq (to_lower sv) "shared"
    then some shared
    else if str_eq (to_lower sv) "unique"
    then some unique
    else none

-- GET, with how a text is read as a uuid.
unfoldable pub get_occupation : (String → Option ℕ) → String → Resources → HttpReply
get_occupation from_string id r = elim (from_string id) [
  | none ↦ failed invalid_argument
  | some uuid ↦ occupation_of uuid r
]

-- How a text is read as a uuid, and the text in small letters.
module _ (from_string : String → Option ℕ) (to_lower : String → String) where
  -- The body of a POST, field by field in the order in which the handler reads them.
  abbrev pub read_position : ℕ → OwnershipMode → Option String → Wanted
  read_position occupy_id mode none = refused other_exception
  read_position occupy_id mode (some position) = wants occupy_id mode position

  abbrev pub read_mode : ℕ → Option String → Option String → Wanted
  read_mode occupy_id none position = refused other_exception
  read_mode occupy_id (some mode) position = elim (parse_ownership_mode to_lower mode) [
    | none ↦ refused invalid_argument
    | some m ↦ read_position occupy_id m position
  ]

  unfoldable pub read_body : Option OccupationBody → Wanted
  read_body none = refused other_exception
  read_body (some body) = elim (body.occupy_id) [
    | none ↦ refused other_exception
    | some text ↦ elim (from_string text) [
      | none ↦ refused invalid_argument
      | some occupy_id ↦ read_mode occupy_id body.mode body.position
    ]
  ]

  module _ (is_local : String → Bool) (post : RemoteRequest → Option Bool) where
    unfoldable pub occupy_known : ℕ → OwnershipMode → String → ℕ → Resources → HttpReply × Resources
    occupy_known parent mode position id r =
        if judge_ability_exist id r
        then (let (res, r') = occupy_ability is_local post parent position id mode r in
            (reply_of "occupy_ability_failed" res, r'))
        else if judge_device_exist id r
        then (let (res, r') = occupy_device is_local post parent position id mode r in
            (reply_of "occupy_device_failed" res, r'))
        else (failed (problem 404 "non_exist_occupyee_cr"), r)

    -- POST
    unfoldable pub post_occupation :
        String → Option OccupationBody → Resources → HttpReply × Resources
    post_occupation id body r = elim (from_string id) [
      | none ↦ (failed invalid_argument, r)
      | some occupied_id ↦ elim (read_body body) [
        | refused e ↦ (failed e, r)
        | wants parent mode position ↦ occupy_known parent mode position occupied_id r
      ]
    ]

    -- The answers of unoccupy_ability and unoccupy_device are not read.
    unfoldable pub unoccupy_known : ℕ → OwnershipMode → ℕ → Resources → HttpReply × Resources
    unoccupy_known parent mode id r =
        if judge_ability_exist id r
        then (done, (unoccupy_ability is_local post parent id mode r).1)
        else if judge_device_exist id r
        then (let (res, r') = unoccupy_device is_local post parent id mode r in
            (reply_of_device res, r'))
        else (failed (problem 404 "non_exist_cr"), r)

    -- The occupant of a DELETE is used without a test, after the mode has been read.
    abbrev pub unoccupy_as : Option ℕ → Option String → ℕ → Resources → HttpReply × Resources
    unoccupy_as parent none id r = (failed other_exception, r)
    unoccupy_as parent (some mode) id r = elim (parse_ownership_mode to_lower mode) [
      | none ↦ (failed invalid_argument, r)
      | some m ↦ elim parent [
        | none ↦ (
          if judge_ability_exist id r
              then undefined
              else if judge_device_exist id r
              then undefined
              else failed (problem 404 "non_exist_cr"),
          r,
        )
        | some occupy_id ↦ unoccupy_known occupy_id m id r
      ]
    ]

    abbrev pub unoccupy_body : Option OccupationBody → ℕ → Resources → HttpReply × Resources
    unoccupy_body none id r = (failed other_exception, r)
    unoccupy_body (some body) id r = elim (body.occupy_id) [
      | none ↦ (failed other_exception, r)
      | some text ↦ unoccupy_as (from_string text) body.mode id r
    ]

    -- DELETE
    unfoldable pub delete_occupation :
        String → Option OccupationBody → Resources → HttpReply × Resources
    delete_occupation id body r = elim (from_string id) [
      | none ↦ (failed invalid_argument, r)
      | some occupied_id ↦ unoccupy_body body occupied_id r
    ]
