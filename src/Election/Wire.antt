-- ===== src/Election/Wire.antt =====
-- Messages of an election as JSON documents: from_json and to_json of src/discoverymgr/election_mgr.cpp
-- and include/util/uuid_json_convert.hpp.
use text.Mathlib.Text.{◌==◌ as str_eq}
use ability_framework.Prelude.{ℕ, String, Option, none, some, if◌then◌else◌}
use ability_framework.Prelude.Int.{ℤ}
use ability_framework.Json.{
  Json, integer, string, array, no_items, item, Fields, no_fields, field, get_field, find_in,
  is_empty, json_exception, invalid_argument, Try, returned, failed, ◌>>=◌, get_string, get_int,
}
use ability_framework.Election.Message.{Detail, object, unreadable, ElectionMsg}

-- `j.at(key)`
abbrev pub required : Option Json → Try Json
required none = failed json_exception
required (some v) = returned v

abbrev pub at_key : String → Json → Try Json
at_key k j = required (find_in k j)

-- A field that is missing or empty is passed over: the address stays "", and the detail stays null,
-- which no weight can be read from.
abbrev pub read_addr : Option Json → Try String
read_addr none = returned ""
read_addr (some j) = if is_empty j then returned "" else get_string j

abbrev pub weight_detail : Try ℤ → Detail
weight_detail (returned w) = object (some w)
weight_detail (failed e) = unreadable

-- What `detail.value("weight", 0)` will read.
abbrev pub weight_of : Option Json → Detail
weight_of none = object none
weight_of (some w) = weight_detail (get_int w)

abbrev pub detail_of : Json → Detail
detail_of (Json.object fs) = weight_of (get_field "weight" fs)
detail_of _ = unreadable

abbrev pub read_detail : Option Json → Detail
read_detail none = unreadable
read_detail (some j) = if is_empty j then unreadable else detail_of j

-- to_json. The program gives its messages a weight or no detail at all.
abbrev pub with_addr : String → Fields → Fields
with_addr addr fs = if str_eq addr "" then fs else field "sourceIddr" (string addr) fs

abbrev pub with_detail : Detail → Fields → Fields
with_detail (object (some w)) fs =
    field "detail" (Json.object (field "weight" (integer w) no_fields)) fs
with_detail _ fs = fs

-- How a uuid is read and written.
module _ (from_string : String → Option ℕ) (to_text : ℕ → String) where
  abbrev pub known_uuid : Option ℕ → Try ℕ
  known_uuid none = failed invalid_argument
  known_uuid (some id) = returned id

  abbrev pub get_uuid : Json → Try ℕ
  get_uuid (string s) = known_uuid (from_string s)
  get_uuid _ = failed invalid_argument

  unfoldable pub from_json : Json → Try ElectionMsg
  from_json j = at_key "sourceId" j >>= λ i. get_uuid i >>= λ id.
      read_addr (find_in "sourceAddr" j) >>= λ addr. at_key "type" j >>= λ t.
      get_string t >>= λ type. returned (record {
        source_id = id;
        source_addr = addr;
        type = type;
        detail = read_detail (find_in "detail" j);
      })

  unfoldable pub to_json : ElectionMsg → Json
  to_json m = Json.object (
      field "type" (string m.type) (
        field "sourceId" (string (to_text m.source_id))
          (with_addr m.source_addr (with_detail m.detail no_fields))))

  -- `json payload{msg}`: braces call the constructor that makes a list of what stands in them.
  abbrev pub send_payload : ElectionMsg → Json
  send_payload m = array (item (to_json m) no_items)
