-- ===== src/Services/Manager.antt =====
-- ServiceLifecycleManager (src/lifecyclemgr/service_lifecycle.cpp). Its mutex makes each operation one
-- step. The processes and the probed servers are a world W, which `start_process` (none: it throws)
-- and `get` (the status of an answer) read and change; the clock is an argument.
use text.Mathlib.Text.{◌==◌ as str_eq}
use ability_framework.Prelude.{
  ℕ, suc, String, Bool, true, false, not, ◌&&◌, Option, none, some, List, [], ◌∷◌, if◌then◌else◌,
  Map, find, insert, uuid_key,
}
use ability_framework.Prelude.Int.{ℤ, pos, ltb_ℤ, eqb_ℤ}
use ability_framework.Services.Entry.{
  ServiceState, starting, running, failed, restarting, stopped, Probe, HealthCheck, ServiceCr,
  ServiceEntry, ServiceRunInfo,
}

-- should_restart
unfoldable pub should_restart : ServiceEntry → ℤ → Bool
should_restart entry exit_code =
    let policy = entry.cr.spec.restart_policy in
    if str_eq policy "never"
    then false
    else if str_eq policy "on-failure" && eqb_ℤ exit_code (pos 0)
    then false
    else ltb_ℤ (pos entry.restart_count) entry.cr.spec.max_restarts

abbrev pub is_running : ServiceState → Bool
is_running running = true
is_running _ = false

abbrev pub is_stopped : ServiceState → Bool
is_stopped stopped = true
is_stopped _ = false

-- The probe of a running service that the checks look at.
abbrev pub liveness_of : Option HealthCheck → Option Probe
liveness_of none = none
liveness_of (some hc) = hc.liveness

abbrev pub is_probed : Probe → Bool
is_probed p = str_eq p.type "http" && (ltb_ℤ (pos 0) p.port && not (str_eq p.path ""))

-- A status that counts as healthy.
abbrev pub is_healthy : Option ℤ → Bool
is_healthy none = false
is_healthy (some status) = not (ltb_ℤ status (pos 200)) && ltb_ℤ status (pos 400)

abbrev pub bump : ServiceEntry → ServiceEntry
bump entry = record entry { consecutive_health_failures = suc entry.consecutive_health_failures }

abbrev pub clear_failures : ServiceEntry → ServiceEntry
clear_failures entry = record entry { consecutive_health_failures = 0 }

abbrev pub mark_failed : ServiceEntry → ServiceEntry
mark_failed entry = record entry { state = failed }

-- The entry of start_service before its process is started.
abbrev pub new_entry : ServiceCr → String → ℕ → ServiceEntry
new_entry cr path now = record {
  cr = cr;
  executable_path = path;
  process_handle_id = 0;
  state = starting;
  restart_count = 0;
  consecutive_health_failures = 0;
  last_restart = now;
}

-- get_all_services
abbrev pub run_info : ℕ → ServiceEntry → ServiceRunInfo
run_info id entry = record {
  id = id;
  service_name = entry.cr.spec.service_name;
  state = entry.state;
  restart_count = entry.restart_count;
  pid = 0;
}

unfoldable pub get_all_services : Map ℕ ServiceEntry → List ServiceRunInfo
get_all_services [] = []
get_all_services ((id, entry) ∷ rest) = run_info id entry ∷ get_all_services rest

abbrev pub state_of : Option ServiceEntry → ServiceState
state_of none = stopped
state_of (some entry) = entry.state

-- get_state
unfoldable pub get_state : ℕ → Map ℕ ServiceEntry → ServiceState
get_state id services = state_of (find id services)

abbrev pub mark_stopped : ServiceEntry → ServiceEntry
mark_stopped entry = record entry { state = stopped }

abbrev pub put :
    ℕ
    → (ServiceEntry → ServiceEntry)
    → Map ℕ ServiceEntry
    → Option ServiceEntry
    → Map ℕ ServiceEntry
put id f services none = services
put id f services (some entry) = insert id (f entry) services

-- stop_service
unfoldable pub stop_service : ℕ → Map ℕ ServiceEntry → Map ℕ ServiceEntry
stop_service id services = put id mark_stopped services (find id services)

-- do_restart up to the call of start_process_fn, and what follows the call.
abbrev pub attempt : ServiceEntry → ServiceEntry
attempt entry = record entry { restart_count = suc entry.restart_count; state = restarting }

abbrev pub restarted : ℕ → ServiceEntry → Option ℕ → ServiceEntry
restarted now entry none = record entry { state = failed }
restarted now entry (some handle) = record entry {
  process_handle_id = handle;
  state = running;
  consecutive_health_failures = 0;
  last_restart = now;
}

abbrev pub started : ServiceEntry → Option ℕ → ServiceEntry
started entry none = record entry { state = failed }
started entry (some handle) = record entry { process_handle_id = handle; state = running }

-- What can happen to the manager, at the time given last.
pub data Event : Type 0 where
  start : ServiceCr → String → ℕ → Event
  stop : ℕ → Event
  exited : ℕ → ℤ → ℕ → Event
  check : ℕ → Event

module _ {W : Type 0} (start_process : String → W → Option ℕ × W)
    (get : ℤ → String → W → Option ℤ × W) where
  -- do_restart
  unfoldable pub do_restart : ℕ → ServiceEntry → W → ServiceEntry × W
  do_restart now entry w =
      let (result, w1) = start_process entry.executable_path w in
      (restarted now (attempt entry) result, w1)

  -- start_service
  unfoldable pub start_service :
      ServiceCr → String → ℕ → Map ℕ ServiceEntry → W → Map ℕ ServiceEntry × W
  start_service cr path now services w =
      let (result, w1) = start_process path w in
      (insert cr.id (started (new_entry cr path now) result) services, w1)

  -- The end of on_service_exit, and of a health check at the threshold.
  unfoldable pub restart_or_fail : ℤ → ℕ → ServiceEntry → W → ServiceEntry × W
  unfolding do_restart should_restart
  restart_or_fail exit_code now entry w =
      if should_restart entry exit_code then do_restart now entry w else (mark_failed entry, w)

  unfoldable pub exit_entry : ℤ → ℕ → ServiceEntry → W → ServiceEntry × W
  unfolding restart_or_fail
  exit_entry exit_code now entry w =
      if is_stopped entry.state then (entry, w) else restart_or_fail exit_code now entry w

  abbrev pub exit_found :
      ℕ → ℤ → ℕ → Map ℕ ServiceEntry → W → Option ServiceEntry → Map ℕ ServiceEntry × W
  exit_found id exit_code now services w none = (services, w)
  exit_found id exit_code now services w (some entry) =
      let (entry1, w1) = exit_entry exit_code now entry w in (insert id entry1 services, w1)

  -- on_service_exit
  unfoldable pub on_service_exit : ℕ → ℤ → ℕ → Map ℕ ServiceEntry → W → Map ℕ ServiceEntry × W
  unfolding exit_entry
  on_service_exit id exit_code now services w =
      exit_found id exit_code now services w (find id services)

  -- The health check of an entry whose probe is `p`, after its answer.
  unfoldable pub judge : Probe → Option ℤ → ℕ → ServiceEntry → W → ServiceEntry × W
  unfolding restart_or_fail
  judge p answer now entry w =
      if is_healthy answer
      then (clear_failures entry, w)
      else if ltb_ℤ (pos (suc entry.consecutive_health_failures)) p.failure_threshold
      then (bump entry, w)
      else restart_or_fail (pos 1) now (clear_failures (bump entry)) w

  abbrev pub probe_entry : ℕ → ServiceEntry → W → Option Probe → ServiceEntry × W
  probe_entry now entry w none = (entry, w)
  probe_entry now entry w (some p) =
      if is_probed p
      then (let (answer, w1) = get p.port p.path w in judge p answer now entry w1)
      else (entry, w)

  -- The body of the loop of run_health_checks.
  unfoldable pub check_entry : ℕ → ServiceEntry → W → ServiceEntry × W
  unfolding judge
  check_entry now entry w =
      if is_running entry.state
      then probe_entry now entry w (liveness_of entry.cr.spec.health_check)
      else (entry, w)

  -- run_health_checks
  unfoldable pub run_health_checks : ℕ → Map ℕ ServiceEntry → W → Map ℕ ServiceEntry × W
  unfolding check_entry
  run_health_checks now [] w = ([], w)
  run_health_checks now ((id, entry) ∷ rest) w =
      let (entry1, w1) = check_entry now entry w in
      let (rest1, w2) = run_health_checks now rest w1 in ((id, entry1) ∷ rest1, w2)

  unfoldable pub on_event : Event → Map ℕ ServiceEntry → W → Map ℕ ServiceEntry × W
  unfolding start_service stop_service on_service_exit run_health_checks
  on_event (start cr path now) services w = start_service cr path now services w
  on_event (stop id) services w = (stop_service id services, w)
  on_event (exited id exit_code now) services w = on_service_exit id exit_code now services w
  on_event (check now) services w = run_health_checks now services w

  unfoldable pub run : List Event → Map ℕ ServiceEntry → W → Map ℕ ServiceEntry × W
  unfolding on_event
  run [] services w = (services, w)
  run (e ∷ es) services w = let (services1, w1) = on_event e services w in run es services1 w1
