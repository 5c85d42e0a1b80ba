-- ===== src/Controllers.antt =====
-- ControllerManager: src/controllermgr/controller_mgr.cpp. Its thread asks the lifecycle manager for
-- the abilities on record and has the subprocess manager start their controllers. The answer of the
-- resource manager (`class_of`), the files and their paths are parameters; a lock makes an operation
-- one step.
mod Starts
mod Tests
use Prim.Native.String.{◌++◌ as str_append}
use ability_framework.Prelude.{
  ℕ, zero, suc, ◌+◌, String, Bool, true, false, Option, none, some, List, [], ◌∷◌, ◌++◌, ltb,
  if◌then◌else◌, Map, find, insert, name_key,
}
use ability_framework.Prelude.Int.{ℤ}
use ability_framework.Lifecycle.Heartbeat.{Heartbeat}
use ability_framework.Lifecycle.Manager.{Heartbeats, get_running_abilities}
use ability_framework.Subprocesses.{ProcessRequest, controller}

pub record ControllerHeartbeat : Type 0 where
  pub port : ℤ
  pub controller_instance_id : String
  pub package_name : String
  pub version : String
  pub ability_name : String
  pub protocol : String

-- ControllerManager::Entry; no operation writes its last_connect.
pub record ControllerEntry : Type 0 where
  pub heartbeat : ControllerHeartbeat
  pub last_update : ℕ

unfoldable pub on_receive_heartbeat :
    ℕ → ControllerHeartbeat → Map String ControllerEntry → Map String ControllerEntry
on_receive_heartbeat now h m =
    insert h.controller_instance_id (record { heartbeat = h; last_update = now }) m

-- is_process_running: a heartbeat in the last 30 seconds.
abbrev pub is_recent : ℕ → Option ControllerEntry → Bool
is_recent now none = false
is_recent now (some e) = ltb now (e.last_update + 30)

unfoldable pub is_process_running : ℕ → String → Map String ControllerEntry → Bool
is_process_running now id m = is_recent now (find id m)

-- The package and the version of an ability.
pub record AbilityClassInfo : Type 0 where
  pub ability_package_name : String
  pub ability_version : String

unfoldable pub controller_id_of : AbilityClassInfo → String → String
controller_id_of c name = str_append "controller-" (
    str_append c.ability_package_name
      (str_append "-" (str_append name (str_append "-" c.ability_version))))

-- sleep_until_pred: how often the predicate is asked for, and what it ends in; `pred` answers in turn.
unfoldable pub sleep_loop : ℕ → (ℕ → Bool) → ℕ → Bool
sleep_loop zero pred i = pred i
sleep_loop (suc left) pred i =
    let rest = sleep_loop left pred (suc i) in if pred i then true else rest

module _ (path_of : AbilityClassInfo → String → String) (file_exists : String → Bool)
    (nested : String) (class_of : ℕ → Option AbilityClassInfo) where
  -- check_and_start_controllers: the message that it sends, if any.
  unfoldable pub check_and_start_controllers :
      ℕ → AbilityClassInfo → String → Map String ControllerEntry → List ProcessRequest
  check_and_start_controllers now c name m =
      if is_process_running now (controller_id_of c name) m
      then []
      else if file_exists (path_of c name)
      then controller (path_of c name) (controller_id_of c name) nested ∷ []
      else []

  unfoldable pub check_ability :
      ℕ → Heartbeat → Option AbilityClassInfo → Map String ControllerEntry → List ProcessRequest
  check_ability now h none m = []
  check_ability now h (some c) m = check_and_start_controllers now c h.ability_name m

  -- The loop of a pass over the abilities; `now` reads the clock for one of them.
  unfoldable pub check_abilities :
      (ℕ → ℕ) → List Heartbeat → Map String ControllerEntry → List ProcessRequest
  unfolding check_ability
  check_abilities now [] m = []
  check_abilities now (h ∷ hs) m =
      check_ability (now h.id) h (class_of h.id) m ++ check_abilities now hs m

  -- A pass of fetch_and_check_abilities, with what the lifecycle manager has on record.
  unfoldable pub fetch_and_check_abilities :
      (ℕ → ℕ) → Heartbeats → Map String ControllerEntry → List ProcessRequest
  unfolding check_abilities
  fetch_and_check_abilities now hs m = check_abilities now (get_running_abilities hs) m
