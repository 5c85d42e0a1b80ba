-- ===== src/Services/Tests.antt =====
-- Services whose processes all start and whose servers never answer, and the theorems at them.
use ability_framework.Prelude.{
  ℕ, ◌≤◌, suc, String, Option, none, some, List, [], ◌∷◌, ◌≡◌, refl, arith, find, uuid_key,
  if◌then◌else◌,
}
use ability_framework.Prelude.Int.{ℤ, pos}
use ability_framework.Services.Entry.{running, stopped, Probe, ServiceCr, ServiceEntry}
use ability_framework.Services.Manager.{
  Event, start, stop, exited, check, run, get_state, should_restart, do_restart, mark_failed,
  mark_stopped,
}
use ability_framework.Services.Totals.{counted_start, counted_get, allowance, run-allowance}
use ability_framework.Services.Stops.{run-stop_service}
use ability_framework.Services.Health.{checks, checks-threshold, with_failures}

-- The world counts the processes started.
abbrev start_process : String → ℕ → Option ℕ × ℕ
start_process path w = (some w, suc w)

abbrev get : ℤ → String → ℕ → Option ℤ × ℕ
get port path w = (none, w)

abbrev probe : Probe
probe = record { type = "http"; path = "/health"; port = pos 8080; failure_threshold = pos 3 }

abbrev service : ℕ → ServiceCr
service id = record {
  id = id;
  spec = record {
    service_name = "camera";
    restart_policy = "always";
    max_restarts = pos 2;
    restart_backoff_seconds = pos 10;
    health_check = some (record { liveness = some probe; readiness = none });
  };
}

abbrev up : ServiceEntry
up = record {
  cr = service 1;
  executable_path = "/bin/camera";
  process_handle_id = 0;
  state = running;
  restart_count = 0;
  consecutive_health_failures = 1;
  last_restart = 0;
}

abbrev history : List Event
history =
    start (service 1) "/bin/camera" 1
    ∷ exited 1 (pos 1) 2
    ∷ check 3
    ∷ start (service 2) "/bin/arm" 4
    ∷ exited 1 (pos 0) 5
    ∷ exited 1 (pos 0) 6
    ∷ stop 2
    ∷ []

run-allowance_example :
    (run
      (counted_start start_process get "/bin/camera")
      (counted_get start_process get "/bin/camera")
      history
      []
      (0, 0)).1.1
    ≤ allowance "/bin/camera" history
run-allowance_example = run-allowance start_process get "/bin/camera" history 0

abbrev later_events : List Event
later_events = exited 1 (pos 9) 2 ∷ check 3 ∷ start (service 2) "/bin/arm" 4 ∷ []

run-stop_service_example :
    let after = (run start_process get (stop 1 ∷ later_events) ((1, up) ∷ []) 0).0 in
    (get_state 1 after ≡ stopped) × (find 1 after ≡ some (mark_stopped up))
unfolding find
run-stop_service_example =
    run-stop_service start_process get later_events 1 up ((1, up) ∷ []) 0
      (tt, (tt, (ground arith, tt))) refl

checks-threshold_example :
    (w' : ℕ) × (checks start_process get (5 ∷ 6 ∷ []) up 0 ≡ (
      if should_restart up (pos 1)
      then do_restart start_process get 6 (with_failures 0 up) w'
      else (mark_failed (with_failures 0 up), w')))
checks-threshold_example =
    checks-threshold start_process get (λ port path w. refl) (5 ∷ []) 6 probe up 0
      (refl, refl, refl) refl
