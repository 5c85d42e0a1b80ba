-- ===== src/Alerts.antt =====
-- The store of alerts: src/abilityalertmgr/abilityalert_mgr.cpp, src/abilityalertmgr/ablity_alert.cpp and
-- include/abilityalertmgr/ability_alert.hpp. The database is the list of the rows of one table; a call
-- of SQLite that fails for another reason than the primary key is left out. `before` is the order in
-- which SQLite compares texts.
mod Order
mod Reads
mod Tests
use ability_framework.Prelude.{
  ℕ, zero, suc, String, Bool, true, false, not, ◌&&◌, ◌||◌, Option, none, some, List, [], ◌∷◌, ◌++◌,
  ◌==◌, if◌then◌else◌,
}
use text.Mathlib.Text.{◌==◌ as str_eq}
use ability_framework.Prelude.Int.{ℤ, pos, negsuc}
use ability_framework.Lifecycle.Heartbeat.{
  Heartbeat, LifecycleState, ProtocolType, state_to_string, state_from_sv, protocol_to_string,
  protocol_from_sv,
}

pub data AbilityAlertLevel : Type 0 where
  unknown : AbilityAlertLevel
  info : AbilityAlertLevel
  anomaly : AbilityAlertLevel
  error : AbilityAlertLevel
  fatal : AbilityAlertLevel

-- to_string
abbrev pub level_to_string : AbilityAlertLevel → String
level_to_string unknown = "unknown"
level_to_string info = "info"
level_to_string anomaly = "anomaly"
level_to_string error = "error"
level_to_string fatal = "fatal"

-- from_sv; `none` is std::invalid_argument.
unfoldable pub level_from_sv : String → Option AbilityAlertLevel
level_from_sv s =
    if str_eq s "unknown"
    then some unknown
    else if str_eq s "info"
    then some info
    else if str_eq s "anomaly"
    then some anomaly
    else if str_eq s "error"
    then some error
    else if str_eq s "fatal"
    then some fatal
    else none

pub record ErrorLocation : Type 0 where
  pub file : String
  pub line : ℤ
  pub function : String

module _ (J : Type 0) where
  pub record AbilityAlert : Type 0 where
    pub code : ℤ
    pub message : String
    pub error_operation : String
    pub level : AbilityAlertLevel
    pub time : String
    pub ability_info : Heartbeat
    pub detail : J
    pub context : J
    pub location : ErrorLocation

  -- The table AbilityAlert. A JSON document stands for its text.
  pub record AlertRow : Type 0 where
    pub code : ℤ
    pub id : ℕ
    pub message : String
    pub error_operation : String
    pub level : String
    pub input_time : String
    pub ability_name : String
    pub instance_name : String
    pub version : String
    pub lifecycle_state : String
    pub ability_port : ℕ
    pub ipc_port : ℕ
    pub ipc_protocol : String
    pub detail : J
    pub context : J
    pub location : ErrorLocation

module _ {J : Type 0} where
  unfoldable pub row_of : AbilityAlert J → AlertRow J
  row_of a = record {
    code = a.code;
    id = a.ability_info.id;
    message = a.message;
    error_operation = a.error_operation;
    level = level_to_string a.level;
    input_time = a.time;
    ability_name = a.ability_info.ability_name;
    instance_name = a.ability_info.instance_name;
    version = a.ability_info.version;
    lifecycle_state = state_to_string a.ability_info.state;
    ability_port = a.ability_info.ability_port;
    ipc_port = a.ability_info.ipc_port;
    ipc_protocol = protocol_to_string a.ability_info.ipc_protocol;
    detail = a.detail;
    context = a.context;
    location = a.location;
  }

  unfoldable pub has_key : ℕ → String → List (AlertRow J) → Bool
  has_key id time [] = false
  has_key id time (r ∷ rs) = (r.id == id && str_eq r.input_time time) || has_key id time rs

  -- push_back, by insert; `none` is the exception when the primary key is taken.
  unfoldable pub push_back : AbilityAlert J → List (AlertRow J) → Option (List (AlertRow J))
  unfolding row_of has_key
  push_back a rows =
      if has_key a.ability_info.id a.time rows then none else some (rows ++ row_of a ∷ [])

  -- from_db_row, once the three names are read.
  abbrev pub alert_of_row :
      AlertRow J
      → Option AbilityAlertLevel
      → Option LifecycleState
      → Option ProtocolType
      → Option (AbilityAlert J)
  alert_of_row r (some level) (some state) (some protocol) = some (record {
    code = r.code;
    message = r.message;
    error_operation = r.error_operation;
    level = level;
    time = r.input_time;
    ability_info = record {
      ability_name = r.ability_name;
      version = r.version;
      instance_name = r.instance_name;
      id = r.id;
      state = state;
      ipc_protocol = protocol;
      ipc_port = r.ipc_port;
      ability_port = r.ability_port;
    };
    detail = r.detail;
    context = r.context;
    location = r.location;
  })
  alert_of_row r _ _ _ = none

  unfoldable pub from_db_row : AlertRow J → Option (AbilityAlert J)
  unfolding level_from_sv state_from_sv protocol_from_sv
  from_db_row r =
      alert_of_row r (level_from_sv r.level) (state_from_sv r.lifecycle_state)
        (protocol_from_sv r.ipc_protocol)

  -- The loop of query_ability_alerts; a row that cannot be read throws.
  abbrev pub read_one :
      Option (AbilityAlert J) → Option (List (AbilityAlert J)) → Option (List (AbilityAlert J))
  read_one (some a) (some rest) = some (a ∷ rest)
  read_one _ _ = none

  unfoldable pub read_rows : List (AlertRow J) → Option (List (AbilityAlert J))
  read_rows [] = some []
  read_rows (r ∷ rs) = read_one (from_db_row r) (read_rows rs)

-- `WHERE (id = ? OR ? IS NULL)`; the nil uuid binds NULL.
abbrev pub is_wanted : ℕ → ℕ → Bool
is_wanted wanted id = wanted == 0 || id == wanted

module _ {A : Type 0} where
  -- `WHERE`
  unfoldable pub keep : (A → Bool) → List A → List A
  keep test [] = []
  keep test (x ∷ xs) = let rest = keep test xs in if test x then x ∷ rest else rest

  unfoldable pub take : ℕ → List A → List A
  take zero xs = []
  take (suc n) [] = []
  take (suc n) (x ∷ xs) = x ∷ take n xs

  -- `LIMIT ?`, where a negative number is no limit.
  unfoldable pub limited : ℤ → List A → List A
  limited (pos n) xs = take n xs
  limited (negsuc n) xs = xs

  module _ (before : String → String → Bool) (time : A → String) where
    unfoldable pub put : A → List A → List A
    put x [] = x ∷ []
    put x (y ∷ ys) = if before (time x) (time y) then y ∷ put x ys else x ∷ y ∷ ys

    -- `ORDER BY input_time DESC`
    unfoldable pub latest_first : List A → List A
    latest_first [] = []
    latest_first (x ∷ xs) = put x (latest_first xs)

module _ {J : Type 0} (before : String → String → Bool) where
  -- query, by query_ability_alerts.
  unfoldable pub query : ℕ → ℤ → List (AlertRow J) → Option (List (AbilityAlert J))
  query wanted num_entries rows = read_rows (
      limited num_entries
        (latest_first before (λ r. r.input_time) (keep (λ r. is_wanted wanted r.id) rows)))
