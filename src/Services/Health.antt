-- ===== src/Services/Health.antt =====
-- run_health_checks of src/lifecyclemgr/service_lifecycle.cpp on a service whose server does not answer.
use ability_framework.Prelude.{
  ℕ, suc, ◌+◌, String, true, false, Option, none, some, List, [], ◌∷◌, ◌≡◌, refl, ap, ◌∙◌, arith,
  if◌then◌else◌, length, is_some, ◌++◌,
}
use ability_framework.Prelude.Int.{ℤ, pos, ltb_ℤ}
use ability_framework.Services.Entry.{ServiceEntry, Probe, running}
use ability_framework.Services.Manager.{
  should_restart, is_running, liveness_of, is_probed, is_healthy, bump, mark_failed, attempt,
  restarted, do_restart, restart_or_fail, judge, probe_entry, check_entry, exit_entry,
}

-- A running service that has the probe p.
abbrev pub IsProbed : Probe → ServiceEntry → Type 0
IsProbed p e =
    (e.state ≡ running) × (liveness_of e.cr.spec.health_check ≡ some p) × (is_probed p ≡ true)

abbrev pub with_failures : ℕ → ServiceEntry → ServiceEntry
with_failures n e = record e { consecutive_health_failures = n }

some_of : (o : Option ℕ) → is_some o ≡ true → (n : ℕ) × (o ≡ some n)
some_of none h = ground (arith, h)
some_of (some n) h = (n, refl)

should_restart-always :
    (e : ServiceEntry) (exit_code : ℤ)
    → e.cr.spec.restart_policy ≡ "always"
    → ltb_ℤ (pos e.restart_count) e.cr.spec.max_restarts ≡ true
    → should_restart e exit_code ≡ true
unfolding should_restart
should_restart-always e exit_code always left = rw (always) left

module _ {W : Type 0} (start_process : String → W → Option ℕ × W)
    (get : ℤ → String → W → Option ℤ × W) where
  -- The checks of one service at the given times.
  abbrev pub checks : List ℕ → ServiceEntry → W → ServiceEntry × W
  checks [] e w = (e, w)
  checks (now ∷ times) e w =
      let (e1, w1) = check_entry start_process get now e w in checks times e1 w1

  judge-below :
      (p : Probe) (answer : Option ℤ) (now : ℕ) (e : ServiceEntry) (w : W)
      → is_healthy answer ≡ false
      → ltb_ℤ (pos (suc e.consecutive_health_failures)) p.failure_threshold ≡ true
      → judge start_process get p answer now e w ≡ (bump e, w)
  unfolding judge
  judge-below p answer now e w bad below = ground (arith, bad, below)

  judge-at :
      (p : Probe) (answer : Option ℤ) (now : ℕ) (e : ServiceEntry) (w : W)
      → is_healthy answer ≡ false
      → ltb_ℤ (pos (suc e.consecutive_health_failures)) p.failure_threshold ≡ false
      → judge start_process get p answer now e w
        ≡ restart_or_fail start_process get (pos 1) now (with_failures 0 e) w
  unfolding judge
  judge-at p answer now e w bad reached = ground (arith, bad, reached)

  check_entry-judge :
      (p : Probe) (now : ℕ) (e : ServiceEntry) (w : W)
      → IsProbed p e
      → check_entry start_process get now e w
        ≡ judge start_process get p (get p.port p.path w).0 now e (get p.port p.path w).1
  unfolding check_entry
  check_entry-judge p now e w (on, has, good) =
      ap
        (λ s.
          if is_running s
          then probe_entry start_process get now e w (liveness_of e.cr.spec.health_check)
          else (e, w))
        on
      ∙ ap (probe_entry start_process get now e w) has
      ∙ ap
          (λ c.
            if c
            then judge start_process get p (get p.port p.path w).0 now e (get p.port p.path w).1
            else (e, w))
          good

  checks-append :
      (times : List ℕ) (now : ℕ) (e : ServiceEntry) (w : W)
      → checks (times ++ now ∷ []) e w
        ≡ (let (e1, w1) = checks times e w in check_entry start_process get now e1 w1)
  checks-append [] now e w = refl
  checks-append (t ∷ times) now e w =
      let (e1, w1) = check_entry start_process get t e w in checks-append times now e1 w1

  -- A check, and then the exit of a process of the service.
  abbrev check_then_exit : ℤ → ℕ → ℕ → ServiceEntry → W → ServiceEntry × W
  check_then_exit exit_code now later e w =
      let (e1, w1) = check_entry start_process get now e w in
      exit_entry start_process get exit_code later e1 w1

  exit_entry-running :
      (exit_code : ℤ) (now : ℕ) (e : ServiceEntry) (w : W)
      → e.state ≡ running
      → exit_entry start_process get exit_code now e w
        ≡ restart_or_fail start_process get exit_code now e w
  unfolding exit_entry
  exit_entry-running exit_code now e w h = rw (h)

  restart_or_fail-always :
      ((path : String) (v : W) → is_some (start_process path v).0 ≡ true)
      → (exit_code : ℤ) (now : ℕ) (e : ServiceEntry) (w : W) → e.cr.spec.restart_policy ≡ "always"
      → ltb_ℤ (pos e.restart_count) e.cr.spec.max_restarts ≡ true
      → (handle : ℕ) × (w' : W) × (restart_or_fail start_process get exit_code now e w
          ≡ (restarted now (attempt e) (some handle), w'))
  unfolding restart_or_fail do_restart
  restart_or_fail-always live exit_code now e w always left =
      let (result, w') = start_process e.executable_path w in
      let (handle, got) = some_of result (live e.executable_path w) in
      (
        handle,
        w',
        ap (λ c. if c then do_restart start_process get now e w else (mark_failed e, w))
              (should_restart-always e exit_code always left)
            ∙ ap (λ o. (restarted now (attempt e) o, w')) got,
      )

  module _
      (down : (port : ℤ) (path : String) (w : W) → is_healthy (get port path w).0 ≡ false) where
    check_entry-below :
        (now : ℕ) (p : Probe) (e : ServiceEntry) (w : W)
        → IsProbed p e
        → ltb_ℤ (pos (suc e.consecutive_health_failures)) p.failure_threshold ≡ true
        → check_entry start_process get now e w ≡ (bump e, (get p.port p.path w).1)
    check_entry-below now p e w h below =
        let (answer, w1) = get p.port p.path w in
        check_entry-judge p now e w h ∙ judge-below p answer now e w1 (down p.port p.path w) below

    checks-below :
        (times : List ℕ) (p : Probe) (e : ServiceEntry) (w : W)
        → IsProbed p e
        → ltb_ℤ (pos (e.consecutive_health_failures + length times)) p.failure_threshold ≡ true
        → (w' : W) × (checks times e w
            ≡ (with_failures (e.consecutive_health_failures + length times) e, w'))
    checks-below [] p e w h below = (w, ap (λ n. (with_failures n e, w)) (omega arith))
    checks-below (now ∷ times) p e w h below =
        let counted = check_entry-below now p e w h (ground (arith, below)) in
        let w1 : W = (get p.port p.path w).1 in
        let (w', rest) = checks-below times p (bump e) w1 h (ground (arith, below)) in
        (
          w',
          ap (λ r. checks times r.0 r.1) counted
              ∙ rest
              ∙ ap (λ n. (with_failures n e, w')) (omega arith),
        )

    -- A running service whose probe is never answered well: below the threshold the checks only
    -- count; the check that reaches it resets the count and restarts the service where
    -- should_restart allows it, and marks it Failed where it does not.
    pub checks-threshold :
        (times : List ℕ) (now : ℕ) (p : Probe) (e : ServiceEntry) (w : W)
        → IsProbed p e
        → p.failure_threshold ≡ pos (suc (e.consecutive_health_failures + length times))
        → (w' : W) × (checks (times ++ now ∷ []) e w ≡ (
            if should_restart e (pos 1)
            then do_restart start_process get now (with_failures 0 e) w'
            else (mark_failed (with_failures 0 e), w')))
    unfolding restart_or_fail should_restart
    checks-threshold times now p e w h t =
        let n : ℕ = e.consecutive_health_failures + length times in
        let (w1, seen) = checks-below times p e w h (ap (ltb_ℤ (pos n)) t ∙ ground arith) in
        let (answer, w2) = get p.port p.path w1 in
        let at : ServiceEntry = with_failures n e in
        (
          w2,
          checks-append times now e w
              ∙ ap (λ r. check_entry start_process get now r.0 r.1) seen
              ∙ check_entry-judge p now at w1 h
              ∙ judge-at p answer now at w2 (down p.port p.path w1)
                  (ap (ltb_ℤ (pos (suc n))) t ∙ ground arith),
        )

    -- The restart after failed checks does not end the process that it replaces, and the exit of that
    -- process is taken for an exit of the new one: under the policy "always", with two restarts left
    -- and processes that do start, one failure of the probe and the exit of the old process, with
    -- whatever code, make two restarts.
    exit-restarts_again :
        (now later : ℕ) (p : Probe) (e : ServiceEntry) (w : W) (exit_code : ℤ)
        → ((path : String) (v : W) → is_some (start_process path v).0 ≡ true)
        → IsProbed p e
        → ltb_ℤ (pos (suc e.consecutive_health_failures)) p.failure_threshold ≡ false
        → e.cr.spec.restart_policy ≡ "always"
        → ltb_ℤ (pos (suc e.restart_count)) e.cr.spec.max_restarts ≡ true
        → let (e1, w1) = check_entry start_process get now e w in
          let (e2, w2) = exit_entry start_process get exit_code later e1 w1 in
          (e2.restart_count ≡ suc (suc e.restart_count)) × (e2.state ≡ running)
    exit-restarts_again now later p e w exit_code live h reached always left =
        let (answer, w1) = get p.port p.path w in
        let (a, v, first) =
          restart_or_fail-always live (pos 1) now (with_failures 0 e) w1 always
            (ground (arith, left)) in
        let e1 : ServiceEntry = restarted now (attempt (with_failures 0 e)) (some a) in
        let (c, u, second) = restart_or_fail-always live exit_code later e1 v always left in
        let all : check_then_exit exit_code now later e w
            ≡ (restarted later (attempt e1) (some c), u) =
          ap (λ r. exit_entry start_process get exit_code later r.0 r.1)
            (check_entry-judge p now e w h
              ∙ judge-at p answer now e w1 (down p.port p.path w) reached
              ∙ first)
          ∙ exit_entry-running exit_code later e1 v refl
          ∙ second in
        (
          ap (λ (r : ServiceEntry × W). r.0.restart_count) all,
          ap (λ (r : ServiceEntry × W). r.0.state) all,
        )
