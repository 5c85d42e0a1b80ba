-- ===== src/Resources/Tables.antt =====
-- The documents and the rows that src/resourcemgr/resource_mgr.cpp keeps in its database. A row that
-- the program writes reads back as it was written: the text of a uuid as the uuid, the text of a
-- document as the document.
use ability_framework.Prelude.{
  ℕ, String, Bool, true, false, Option, none, some, List, [], Map, find, uuid_key, is_some, ◌||◌,
}
use ability_framework.Lifecycle.Heartbeat.{LifecycleState}

pub data OwnershipMode : Type 0 where
  unique : OwnershipMode
  shared : OwnershipMode

-- KIND_ABILITY and KIND_DEVICE.
pub data Kind : Type 0 where
  ability : Kind
  device : Kind

abbrev pub same_mode : OwnershipMode → OwnershipMode → Bool
same_mode unique unique = true
same_mode shared shared = true
same_mode _ _ = false

abbrev pub same_kind : Kind → Kind → Bool
same_kind ability ability = true
same_kind device device = true
same_kind _ _ = false

-- The table CROwnership. Its primary key is the first four fields without the address.
pub record Ownership : Type 0 where
  pub parent_id : ℕ
  pub parent_kind : Kind
  pub parent_address : String
  pub child_id : ℕ
  pub child_kind : Kind
  pub is_shared : OwnershipMode

-- What is read of AbilitySpec.
pub record AbilitySpec : Type 0 where
  pub ability_name : String
  pub package_name : String
  pub version : String
  pub position : String
  pub auto_start : Option Bool
  pub keep_alive : Option Bool
  pub singleton : Option Bool

-- What is read of AbilityCR. The specification is a pointer, which may be null.
pub record AbilityCr : Type 0 where
  pub id : ℕ
  pub name : String
  pub spec : Option AbilitySpec
  pub lifecycle_state : Option LifecycleState

-- The table AbilityCRBasic, a template for instances.
pub record Template : Type 0 where
  pub cr_detail : AbilityCr
  pub instance_name : String
  pub autostart : Bool
  pub auto_started : Bool
  pub keep_alive : Bool
  pub singleton : Bool

-- The table AbilityInstance.
pub record Instance : Type 0 where
  pub cr_id : ℕ
  pub cr_name : String
  pub instance_name : String
  pub ability_name : String
  pub ability_version : String
  pub state : LifecycleState
  pub start_time : ℕ
  pub stop_time : Option ℕ
  pub spec_snapshot : Option AbilityCr
  pub ports : Option (ℕ × ℕ)

pub record DeviceCr : Type 0 where
  pub id : ℕ
  pub name : String
  pub position : String

pub record StartRecord : Type 0 where
  pub last_start : ℕ
  pub retry_count : ℕ

pub record Resources : Type 0 where
  pub templates : Map ℕ Template
  pub instances : Map ℕ Instance
  pub devices : Map ℕ DeviceCr
  pub ownership : List Ownership
  pub start_records : Map ℕ StartRecord

abbrev pub no_resources : Resources
no_resources = record {
  templates = [];
  instances = [];
  devices = [];
  ownership = [];
  start_records = [];
}

-- judge_ability_exist
unfoldable pub judge_ability_exist : ℕ → Resources → Bool
judge_ability_exist id r = is_some (find id r.templates) || is_some (find id r.instances)

-- judge_device_exist: `SELECT exists(…)` has one row, whose value is not read.
unfoldable pub judge_device_exist : ℕ → Resources → Bool
judge_device_exist id r = true

-- The columns that replace fields of the stored document, in ability_cr_from_db_basic. It follows
-- the pointer to the specification without a test; a template is stored only with one.
abbrev pub spec_of_row : Template → AbilitySpec → AbilitySpec
spec_of_row t s = record s {
  auto_start = some t.autostart;
  keep_alive = some t.keep_alive;
  singleton = some t.singleton;
}

unfoldable pub cr_of_row : ℕ → Template → AbilityCr
cr_of_row id t = record (t.cr_detail) {
  id = id;
  name = t.instance_name;
  spec = elim (t.cr_detail.spec) [ none ↦ none | some s ↦ some (spec_of_row t s) ];
}

-- get_ability_cr
unfoldable pub get_ability_cr : ℕ → Resources → Option AbilityCr
get_ability_cr id r = elim (find id r.templates) [ none ↦ none | some t ↦ some (cr_of_row id t) ]

-- get_device_cr
unfoldable pub get_device_cr : ℕ → Resources → Option DeviceCr
get_device_cr id r = find id r.devices

-- resolve_ability_cr_by_id: the snapshot of an instance first, then the template.
unfoldable pub snapshot_or : ℕ → Option AbilityCr → Option AbilityCr → Option AbilityCr
snapshot_or id none cr = cr
snapshot_or id (some s) cr = some (record s { id = id })

unfoldable pub resolve_ability_cr_by_id : ℕ → Resources → Option AbilityCr
unfolding snapshot_or get_ability_cr
resolve_ability_cr_by_id id r =
    snapshot_or id (elim (find id r.instances) [ none ↦ none | some i ↦ i.spec_snapshot ])
      (get_ability_cr id r)
