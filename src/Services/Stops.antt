-- ===== src/Services/Stops.antt =====
-- stop_service of src/lifecyclemgr/service_lifecycle.cpp is final until the service is started anew.
use mathlib.Core.Option.{some-injective}
use ability_framework.Prelude.{
  ℕ, String, Bool, true, false, Option, none, some, List, [], ◌∷◌, ◌≡◌, ◌≢◌, refl, sym, ap, ◌∙◌,
  All, arith, Map, find, insert, uuid_key, find-insert, if◌then◌else◌, ◌==◌, Bool-cases, inl, inr,
  ==_iff, same_refl,
}
use ability_framework.Prelude.Int.{ℤ}
use ability_framework.Services.Entry.{stopped, ServiceEntry}
use ability_framework.Services.Manager.{
  exit_entry, check_entry, run_health_checks, start_service, stop_service, on_service_exit, Event,
  on_event, run, start, stop, exited, check, put, mark_stopped, exit_found, get_state, state_of,
}

-- The event does not start the service.
abbrev pub StartsNot : ℕ → Event → Type 0
StartsNot id (start cr path now) = cr.id ≢ id
StartsNot id (stop j) = Unit
StartsNot id (exited j exit_code now) = Unit
StartsNot id (check now) = Unit

mark_stopped-stopped : (e : ServiceEntry) → e.state ≡ stopped → mark_stopped e ≡ e
mark_stopped-stopped e h = ap (λ s. record e { state = s }) (sym h)

find-insert_other :
    (id j : ℕ) (v : ServiceEntry) (services : Map ℕ ServiceEntry)
    → j ≢ id
    → find id (insert j v services) ≡ find id services
find-insert_other id j v services n = ground (arith, n, ==_iff j id, find-insert j id v services)

module _ {W : Type 0} (start_process : String → W → Option ℕ × W)
    (get : ℤ → String → W → Option ℤ × W) where
  exit_entry-stopped :
      (exit_code : ℤ) (now : ℕ) (e : ServiceEntry) (w : W)
      → e.state ≡ stopped
      → exit_entry start_process get exit_code now e w ≡ (e, w)
  unfolding exit_entry
  exit_entry-stopped exit_code now e w h = rw (h)

  check_entry-stopped :
      (now : ℕ) (e : ServiceEntry) (w : W)
      → e.state ≡ stopped
      → check_entry start_process get now e w ≡ (e, w)
  unfolding check_entry
  check_entry-stopped now e w h = rw (h)

  run_health_checks-stopped :
      (now id : ℕ) (e : ServiceEntry) (services : Map ℕ ServiceEntry) (w : W)
      → e.state ≡ stopped
      → find id services ≡ some e
      → find id (run_health_checks start_process get now services w).0 ≡ some e
  unfolding run_health_checks find
  run_health_checks-stopped now id e [] w h f = f
  run_health_checks-stopped now id e ((j, d) ∷ rest) w h f =
      by_same (j == id) f
        (run_health_checks-stopped now id e rest (check_entry start_process get now d w).1 h)
    where
      after : Map ℕ ServiceEntry
      after =
          (run_health_checks start_process get now rest (check_entry start_process get now d w).1).0

      by_same :
          (c : Bool)
          → (if c then some d else find id rest) ≡ some e
          → (find id rest ≡ some e → find id after ≡ some e)
          → (if c then some (check_entry start_process get now d w).0 else find id after) ≡ some e
      by_same true f k =
          let same : d ≡ e = some-injective _ _ f in
          ap some (
            ap (λ r. r.0)
              (check_entry-stopped now d w (ap (λ (x : ServiceEntry). x.state) same ∙ h))
            ∙ same)
      by_same false f k = k f

  -- Writing to a service is not seen at another, and seen at the same as the value written.
  insert-keeps :
      (id j : ℕ) (v e : ServiceEntry) (services : Map ℕ ServiceEntry)
      → find id services ≡ some e
      → (j ≡ id → v ≡ e)
      → find id (insert j v services) ≡ some e
  insert-keeps id j v e services f same = elim (Bool-cases (j == id)) [
    | inl eq ↦
        find-insert j id v services
        ∙ ap (λ c. if c then some v else find id services) eq
        ∙ ap some (same ((==_iff j id).0 eq))
    | inr other ↦
        find-insert j id v services ∙ ap (λ c. if c then some v else find id services) other ∙ f
  ]

  on_event-stopped :
      (event : Event) (id : ℕ) (e : ServiceEntry) (services : Map ℕ ServiceEntry) (w : W)
      → StartsNot id event
      → e.state ≡ stopped
      → find id services ≡ some e
      → find id (on_event start_process get event services w).0 ≡ some e
  unfolding on_event start_service stop_service on_service_exit
  on_event-stopped (start cr path now) id e services w n h f =
      insert-keeps id cr.id _ e services f (λ same. ground (arith, n, same))
  on_event-stopped (stop j) id e services w n h f = by_found (find j services) refl
    where
      by_found :
          (o : Option ServiceEntry)
          → find j services ≡ o
          → find id (put j mark_stopped services o) ≡ some e
      by_found none g = f
      by_found (some d) g = insert-keeps id j (mark_stopped d) e services f (λ same.
          ap mark_stopped (some-injective _ _ (sym g ∙ ap (λ i. find i services) same ∙ f))
          ∙ mark_stopped-stopped e h)
  on_event-stopped (exited j exit_code now) id e services w n h f = by_found (find j services) refl
    where
      by_found :
          (o : Option ServiceEntry)
          → find j services ≡ o
          → find id (exit_found start_process get j exit_code now services w o).0 ≡ some e
      by_found none g = f
      by_found (some d) g = insert-keeps id j _ e services f (λ same.
          let eq : d ≡ e = some-injective _ _ (sym g ∙ ap (λ i. find i services) same ∙ f) in
          ap (λ r. r.0)
            (exit_entry-stopped exit_code now d w (ap (λ (x : ServiceEntry). x.state) eq ∙ h))
          ∙ eq)
  on_event-stopped (check now) id e services w n h f =
      run_health_checks-stopped now id e services w h f

  -- A stopped service keeps its whole entry over any history in which it is not started again: its
  -- process may end, other services start, stop and fail, and health checks run.
  pub run-stopped :
      (events : List Event) (id : ℕ) (e : ServiceEntry) (services : Map ℕ ServiceEntry) (w : W)
      → All (StartsNot id) events
      → e.state ≡ stopped
      → find id services ≡ some e
      → find id (run start_process get events services w).0 ≡ some e
  unfolding run
  run-stopped [] id e services w n h f = f
  run-stopped (event ∷ es) id e services w n h f =
      let (services1, w1) = on_event start_process get event services w in
      run-stopped es id e services1 w1 n.1 h (on_event-stopped event id e services w n.0 h f)

  stop_service-put :
      (id : ℕ) (e : ServiceEntry) (services : Map ℕ ServiceEntry)
      → find id services ≡ some e
      → find id (stop_service id services) ≡ some (mark_stopped e)
  unfolding stop_service
  stop_service-put id e services f =
      ap (λ o. find id (put id mark_stopped services o)) f
      ∙ find-insert id id (mark_stopped e) services
      ∙ ap (λ c. if c then some (mark_stopped e) else find id services) (same_refl id)

  -- A known service that is stopped stays in the state Stopped, with its number of restarts, until it
  -- is started again; no exit and no health check restarts it.
  pub run-stop_service :
      (events : List Event) (id : ℕ) (e : ServiceEntry) (services : Map ℕ ServiceEntry) (w : W)
      → All (StartsNot id) events
      → find id services ≡ some e
      → let after = (run start_process get (stop id ∷ events) services w).0 in
        (get_state id after ≡ stopped) × (find id after ≡ some (mark_stopped e))
  unfolding run on_event get_state
  run-stop_service events id e services w n f =
      let kept =
        run-stopped events id (mark_stopped e) (stop_service id services) w n refl
          (stop_service-put id e services f) in
      (ap state_of kept, kept)
