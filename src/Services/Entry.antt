-- ===== src/Services/Entry.antt =====
-- include/lifecyclemgr/service_state.hpp, the part of include/resourcemgr/service_cr.hpp that the
-- supervision reads, and ServiceEntry of include/lifecyclemgr/service_lifecycle.hpp.
use text.Mathlib.Text.{◌==◌ as str_eq}
use ability_framework.Prelude.{ℕ, String, Option, if◌then◌else◌, ◌≡◌, refl}
use ability_framework.Prelude.Int.{ℤ}

pub data ServiceState : Type 0 where
  stopped : ServiceState
  starting : ServiceState
  running : ServiceState
  failed : ServiceState
  restarting : ServiceState

abbrev pub state_to_string : ServiceState → String
state_to_string stopped = "Stopped"
state_to_string starting = "Starting"
state_to_string running = "Running"
state_to_string failed = "Failed"
state_to_string restarting = "Restarting"

-- NLOHMANN_JSON_SERIALIZE_ENUM: an unknown name reads as the first state of the table.
unfoldable pub state_from_json : String → ServiceState
state_from_json s =
    if str_eq s "Stopped"
    then stopped
    else if str_eq s "Starting"
    then starting
    else if str_eq s "Running"
    then running
    else if str_eq s "Failed"
    then failed
    else if str_eq s "Restarting"
    then restarting
    else stopped

pub record Probe : Type 0 where
  pub type : String
  pub path : String
  pub port : ℤ
  pub failure_threshold : ℤ

pub record HealthCheck : Type 0 where
  pub liveness : Option Probe
  pub readiness : Option Probe

pub record ServiceSpec : Type 0 where
  pub service_name : String
  pub restart_policy : String
  pub max_restarts : ℤ
  pub restart_backoff_seconds : ℤ
  pub health_check : Option HealthCheck

pub record ServiceCr : Type 0 where
  pub id : ℕ
  pub spec : ServiceSpec

pub record ServiceEntry : Type 0 where
  pub cr : ServiceCr
  pub executable_path : String
  pub process_handle_id : ℕ
  pub state : ServiceState
  pub restart_count : ℕ
  pub consecutive_health_failures : ℕ
  pub last_restart : ℕ

pub record ServiceRunInfo : Type 0 where
  pub id : ℕ
  pub service_name : String
  pub state : ServiceState
  pub restart_count : ℕ
  pub pid : ℕ

-- The name of a service's state reads back as the state.
pub state_from_json-to_string : (s : ServiceState) → state_from_json (state_to_string s) ≡ s
unfolding state_from_json
state_from_json-to_string stopped = refl
state_from_json-to_string starting = refl
state_from_json-to_string running = refl
state_from_json-to_string failed = refl
state_from_json-to_string restarting = refl
