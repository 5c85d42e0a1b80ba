-- ===== src/Services/Totals.antt =====
-- How many processes src/lifecyclemgr/service_lifecycle.cpp starts, over any history of events.
use text.Mathlib.Text.{◌==◌ as str_eq}
use ability_framework.Prelude.{
  ℕ, suc, ◌+◌, ◌-◌, ◌≤◌, String, true, Bool-cases, by_cases, Option, none, some, List, [], ◌∷◌,
  ◌==◌, ◌≡◌, refl, arith, Map, find, insert, uuid_key, inl, inr, if◌then◌else◌,
}
use ability_framework.Prelude.Int.{ℤ, pos, pos_part, ltb_ℤ}
use ability_framework.Services.Entry.{Probe, ServiceCr, ServiceEntry}
use ability_framework.Services.Manager.{
  should_restart, is_healthy, attempt, restarted, do_restart, restart_or_fail, exit_entry, judge,
  probe_entry, check_entry, run_health_checks, start_service, stop_service, on_service_exit, Event,
  on_event, run, start, stop, exited, check, put, mark_stopped, started, new_entry, exit_found,
  liveness_of, clear_failures, bump, is_stopped, is_running, is_probed,
}

-- The restarts that a specification allows.
abbrev pub allowed : ServiceCr → ℕ
allowed cr = if str_eq cr.spec.restart_policy "never" then 0 else pos_part cr.spec.max_restarts

-- The processes of an executable that a history may start: for each start of a service with it, one
-- and as many as the service's specification allows.
abbrev pub allowance : String → List Event → ℕ
allowance path [] = 0
allowance path (start cr p now ∷ es) =
    (if str_eq p path then suc (allowed cr) else 0) + allowance path es
allowance path (stop id ∷ es) = allowance path es
allowance path (exited id exit_code now ∷ es) = allowance path es
allowance path (check now ∷ es) = allowance path es

-- What is left of an entry's allowance.
abbrev left_of : String → ServiceEntry → ℕ
left_of path e = if str_eq e.executable_path path then allowed e.cr - e.restart_count else 0

abbrev left_in : String → Map ℕ ServiceEntry → ℕ
left_in path [] = 0
left_in path ((id, e) ∷ m) = left_of path e + left_in path m

abbrev left_found : String → Option ServiceEntry → ℕ
left_found path none = 0
left_found path (some e) = left_of path e

left_in-insert :
    (path : String) (id : ℕ) (e : ServiceEntry) (m : Map ℕ ServiceEntry)
    → left_in path (insert id e m) + left_found path (find id m) ≤ left_in path m + left_of path e
unfolding insert find
left_in-insert path id e [] = omega arith
left_in-insert path id e ((j, d) ∷ m) = elim (Bool-cases (j == id)) [
  | inl s ↦ rw s (omega arith)
  | inr s ↦ rw s (omega (arith, left_in-insert path id e m))
]

module _ {W : Type 0} (start_process : String → W → Option ℕ × W)
    (get : ℤ → String → W → Option ℤ × W) (path : String) where
  -- The processes of the executable are counted beside the world.
  abbrev pub counted_start : String → W × ℕ → Option ℕ × (W × ℕ)
  counted_start p (w, n) =
      let (o, w1) = start_process p w in (o, (w1, if str_eq p path then suc n else n))

  abbrev pub counted_get : ℤ → String → W × ℕ → Option ℤ × (W × ℕ)
  counted_get port p (w, n) = let (o, w1) = get port p w in (o, (w1, n))

  -- A step on an entry, from a count, keeps to what is left.
  abbrev Keeps : ServiceEntry → ℕ → ServiceEntry × (W × ℕ) → Type 0
  Keeps e n r = left_of path r.0 + r.1.1 ≤ left_of path e + n

  -- A restart that is allowed takes one from what is left.
  attempt-left :
      (e : ServiceEntry) (exit_code : ℤ)
      → should_restart e exit_code ≡ true
      → suc (allowed e.cr - suc e.restart_count) ≤ allowed e.cr - e.restart_count
  unfolding should_restart
  attempt-left e exit_code h = ground (arith, h)

  do_restart-Keeps :
      (now : ℕ) (e : ServiceEntry) (exit_code : ℤ) (w : W) (n : ℕ)
      → should_restart e exit_code ≡ true
      → Keeps e n (do_restart counted_start counted_get now e (w, n))
  unfolding do_restart
  do_restart-Keeps now e exit_code w n h = by_result (start_process e.executable_path w).0
    where
      by_result :
          (o : Option ℕ)
          → left_of path (restarted now (attempt e) o)
              + (if str_eq e.executable_path path then suc n else n)
            ≤ left_of path e + n
      by_result none = ground (arith, attempt-left e exit_code h)
      by_result (some handle) = ground (arith, attempt-left e exit_code h)

  restart_or_fail-Keeps :
      (exit_code : ℤ) (now : ℕ) (e : ServiceEntry) (w : W) (n : ℕ)
      → Keeps e n (restart_or_fail counted_start counted_get exit_code now e (w, n))
  unfolding restart_or_fail
  restart_or_fail-Keeps exit_code now e w n = elim (Bool-cases (should_restart e exit_code)) [
    | inl allows ↦ rw allows (do_restart-Keeps now e exit_code w n allows)
    | inr forbids ↦ rw forbids (omega arith)
  ]

  exit_entry-Keeps :
      (exit_code : ℤ) (now : ℕ) (e : ServiceEntry) (w : W) (n : ℕ)
      → Keeps e n (exit_entry counted_start counted_get exit_code now e (w, n))
  unfolding exit_entry
  exit_entry-Keeps exit_code now e w n =
      by_cases (Keeps e n) (is_stopped e.state) (omega arith)
        (restart_or_fail-Keeps exit_code now e w n)

  check_entry-Keeps :
      (now : ℕ) (e : ServiceEntry) (w : W) (n : ℕ)
      → Keeps e n (check_entry counted_start counted_get now e (w, n))
  unfolding check_entry judge
  check_entry-Keeps now e w n =
      by_cases (Keeps e n) (is_running e.state) (by_probe (liveness_of e.cr.spec.health_check))
        (omega arith)
    where
      by_probe :
          (o : Option Probe) → Keeps e n (probe_entry counted_start counted_get now e (w, n) o)
      by_probe none = omega arith
      by_probe (some p) =
          let (answer, w1) = get p.port p.path w in
          by_cases (Keeps e n) (is_probed p)
            (by_cases (Keeps e n) (is_healthy answer) (omega arith) (
              by_cases (Keeps e n)
                (ltb_ℤ (pos (suc e.consecutive_health_failures)) p.failure_threshold) (omega arith)
                (restart_or_fail-Keeps (pos 1) now (clear_failures (bump e)) w1 n)))
            (omega arith)

  -- A step on the services, from a count, that an event allows some starts more.
  abbrev KeepsAll : ℕ → Map ℕ ServiceEntry → ℕ → Map ℕ ServiceEntry × (W × ℕ) → Type 0
  KeepsAll more m n r = left_in path r.0 + r.1.1 ≤ left_in path m + n + more

  run_health_checks-KeepsAll :
      (now : ℕ) (m : Map ℕ ServiceEntry) (w : W) (n : ℕ)
      → KeepsAll 0 m n (run_health_checks counted_start counted_get now m (w, n))
  unfolding run_health_checks
  run_health_checks-KeepsAll now [] w n = omega arith
  run_health_checks-KeepsAll now ((id, e) ∷ rest) w n =
      let (e1, (w1, n1)) = check_entry counted_start counted_get now e (w, n) in
      omega (arith, check_entry-Keeps now e w n, run_health_checks-KeepsAll now rest w1 n1)

  start_service-KeepsAll :
      (cr : ServiceCr) (p : String) (now : ℕ) (m : Map ℕ ServiceEntry) (w : W) (n : ℕ)
      → KeepsAll
          (if str_eq p path then suc (allowed cr) else 0)
          m
          n
          (start_service counted_start counted_get cr p now m (w, n))
  unfolding start_service
  start_service-KeepsAll cr p now m w n = by_result (start_process p w).0
    where
      by_result :
          (o : Option ℕ)
          → left_in path (insert cr.id (started (new_entry cr p now) o) m)
              + (if str_eq p path then suc n else n)
            ≤ left_in path m + n + (if str_eq p path then suc (allowed cr) else 0)
      by_result none =
          ground (arith, left_in-insert path cr.id (started (new_entry cr p now) none) m)
      by_result (some handle) =
          ground (arith, left_in-insert path cr.id (started (new_entry cr p now) (some handle)) m)

  on_service_exit-KeepsAll :
      (id : ℕ) (exit_code : ℤ) (now : ℕ) (m : Map ℕ ServiceEntry) (w : W) (n : ℕ)
      → KeepsAll 0 m n (on_service_exit counted_start counted_get id exit_code now m (w, n))
  unfolding on_service_exit
  on_service_exit-KeepsAll id exit_code now m w n = by_found (find id m) refl
    where
      by_found :
          (o : Option ServiceEntry)
          → find id m ≡ o
          → KeepsAll 0 m n (exit_found counted_start counted_get id exit_code now m (w, n) o)
      by_found none f = omega arith
      by_found (some e) f =
          let e1 = (exit_entry counted_start counted_get exit_code now e (w, n)).0 in
          let room = left_in-insert path id e1 m in
          let found = (rw f at room) in omega (arith, found, exit_entry-Keeps exit_code now e w n)

  stop_service-left :
      (id : ℕ) (m : Map ℕ ServiceEntry) → left_in path (stop_service id m) ≤ left_in path m
  unfolding stop_service
  stop_service-left id m = by_found (find id m) refl
    where
      by_found :
          (o : Option ServiceEntry)
          → find id m ≡ o
          → left_in path (put id mark_stopped m o) ≤ left_in path m
      by_found none f = omega arith
      by_found (some e) f =
          let room = left_in-insert path id (mark_stopped e) m in
          let found = (rw f at room) in omega (arith, found)

  run-left :
      (es : List Event) (m : Map ℕ ServiceEntry) (w : W) (n : ℕ)
      → KeepsAll (allowance path es) m n (run counted_start counted_get es m (w, n))
  unfolding run on_event
  run-left [] m w n = omega arith
  run-left (start cr p now ∷ es) m w n =
      let (m1, (w1, n1)) = start_service counted_start counted_get cr p now m (w, n) in
      omega (arith, start_service-KeepsAll cr p now m w n, run-left es m1 w1 n1)
  run-left (stop id ∷ es) m w n =
      omega (arith, stop_service-left id m, run-left es (stop_service id m) w n)
  run-left (exited id exit_code now ∷ es) m w n =
      let (m1, (w1, n1)) = on_service_exit counted_start counted_get id exit_code now m (w, n) in
      omega (arith, on_service_exit-KeepsAll id exit_code now m w n, run-left es m1 w1 n1)
  run-left (check now ∷ es) m w n =
      let (m1, (w1, n1)) = run_health_checks counted_start counted_get now m (w, n) in
      omega (arith, run_health_checks-KeepsAll now m w n, run-left es m1 w1 n1)

  -- Over any history of starts, stops, exits and health checks from no services, whatever the processes
  -- and the probed servers do, the calls that start a process of an executable are at most, for each
  -- start of a service with that executable in the history, one and as many more as the service's
  -- specification allows restarts: none under the policy "never" or a negative bound.
  pub run-allowance :
      (es : List Event) (w : W)
      → (run counted_start counted_get es [] (w, 0)).1.1 ≤ allowance path es
  run-allowance es w = omega (arith, run-left es [] w 0)
