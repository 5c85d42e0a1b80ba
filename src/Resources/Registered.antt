-- ===== src/Resources/Registered.antt =====
-- The heartbeats that src/lifecyclemgr/lifecycle_mgr.cpp keeps are of the instances that
-- src/resourcemgr/resource_mgr.cpp has registered.
use ability_framework.Prelude.{
  All, ◌≢◌, ℕ, String, Bool, true, false, Option, none, some, List, [], ◌∷◌, ◌≡◌, refl, arith,
  if◌then◌else◌, ◌||◌, ◌&&◌, ◌==◌, Map, find, insert, find-insert, find-erase, uuid_key, is_some,
  by_cases,
}
use ability_framework.Lifecycle.Heartbeat.{
  Heartbeat, LifecycleState, is_active, terminated, same_state,
}
use ability_framework.Lifecycle.Client.{HttpClient}
use ability_framework.Lifecycle.Laws.{find-erase_ids}
use ability_framework.Lifecycle.Manager.{
  Entry, on_heartbeat, update_entry, contains_active, clear_stale_heartbeats, stale_ids,
  on_ability_exit,
}
use ability_framework.Resources.Tables.{AbilitySpec, AbilityCr, Instance, Resources}
use ability_framework.Resources.Instances.{
  heard, delete_found, delete_instance, delete_ability_instance, update_instance,
  on_event_heartbeat, mark_auto_started, may_start, start_record, spawn_limited,
  create_ability_instance, noted,
}
use ability_framework.Resources.Passes.{auto_start_ability-holds}
use ability_framework.Resources.Session.{
  SessionEvent, starts, beats, exits, clears, deletes, Session, on_session_event, run_session,
}

is_some-find-insert :
    (k j : ℕ) (i : Instance) (m : Map ℕ Instance)
    → is_some (find j m) ≡ true
    → is_some (find j (insert k i m)) ≡ true
is_some-find-insert k j i m h = ground (arith, find-insert k j i m)

-- A heartbeat is accepted if it tells of the end of an ability or comes from a registered instance.
-- Afterwards the registered instances are those of before, without the one that has ended: a
-- heartbeat never registers one.
on_event_heartbeat-rows :
    (h : Heartbeat) (r : Resources) (j : ℕ)
    → let (accepted, r') = on_event_heartbeat h r in
      (accepted ≡ (same_state h.state terminated || is_some (find h.id r.instances)))
      × (is_some (find j r'.instances) ≡ (
          if same_state h.state terminated && h.id == j
          then false
          else is_some (find j r.instances)))
unfolding on_event_heartbeat update_instance delete_ability_instance
on_event_heartbeat-rows h r j = by_state (same_state h.state terminated)
  where
    of_row :
        (o : Option Instance)
        → find h.id r.instances ≡ o
        → let (accepted, r') = update_instance h o r in
          (accepted ≡ is_some o) × (is_some (find j r'.instances) ≡ is_some (find j r.instances))
    of_row none e = (refl, refl)
    of_row (some i) e = (refl, ground (arith, e, find-insert h.id j (heard h i) r.instances))

    by_state :
        (b : Bool)
        → let (accepted, r') =
            (let step : Bool × Resources =
                if b
                then (true, delete_ability_instance h.id r)
                else update_instance h (find h.id r.instances) r in
              step) in
          (accepted ≡ (b || is_some (find h.id r.instances)))
          × (is_some (find j r'.instances)
              ≡ (if b && h.id == j then false else is_some (find j r.instances)))
    by_state true = (refl, ground (arith, find-erase h.id j r.instances))
    by_state false = of_row (find h.id r.instances) refl

terminated-is_active : (s : LifecycleState) → same_state s terminated ≡ true → is_active s ≡ false
unfolding is_active
terminated-is_active LifecycleState.terminated h = refl
terminated-is_active LifecycleState.unknown h = cc
terminated-is_active LifecycleState.inactive h = cc
terminated-is_active LifecycleState.init h = cc
terminated-is_active LifecycleState.standby h = cc
terminated-is_active LifecycleState.running h = cc
terminated-is_active LifecycleState.suspend h = cc
terminated-is_active LifecycleState.error h = cc

-- An ability that the lifecycle manager counts as active is a registered instance.
abbrev pub IsRegistered : ℕ → Session → Type 0
IsRegistered id s =
    contains_active id s.heartbeats ≡ true → is_some (find id s.resources.instances) ≡ true

-- The event is no request to delete the instance.
abbrev pub SparesInstance : ℕ → SessionEvent → Type 0
SparesInstance id (deletes i) = i ≢ id
SparesInstance id _ = Unit {0}

module _ (make_uuid : Resources → ℕ) (short : ℕ → String) (system_now : Resources → ℕ)
    (port_to_string : ℕ → String) (make : String → Option HttpClient) where
  heartbeat_of_update :
      (now : ℕ) (b : Heartbeat) (o : Option Entry)
      → (update_entry port_to_string make now b o).heartbeat ≡ b
  unfolding update_entry
  heartbeat_of_update now b none = refl
  heartbeat_of_update now b (some e) = refl

  -- What a pass of automatic starts leaves of the rows that there were.
  abbrev Keeps : ℕ → List (ℕ × ℕ) → Resources → Resources → Type 0
  Keeps id made r r' = is_some (find id r.instances) ≡ true → is_some (find id r'.instances) ≡ true

  abbrev HasRow : ℕ → Option ℕ × Resources → Type 0
  HasRow id (made, r) = is_some (find id r.instances) ≡ true

  marks-Keeps : (id t : ℕ) (r : Resources) → Keeps id [] r (mark_auto_started t r)
  unfolding mark_auto_started
  marks-Keeps id t r h = h

  spawn_limited-Keeps :
      (id now t : ℕ) (cr : AbilityCr) (spec : AbilitySpec) (r : Resources)
      → let (made, r') = spawn_limited make_uuid short system_now now t cr spec r in
        Keeps id (noted t made) r r'
  unfolding spawn_limited create_ability_instance
  spawn_limited-Keeps id now t cr spec r h =
      by_cases (HasRow id) (may_start now (start_record (find t r.start_records)))
        (is_some-find-insert (make_uuid r) id _ r.instances h) h

  beats-IsRegistered :
      (id now : ℕ) (b : Heartbeat) (s : Session)
      → IsRegistered id s
      → IsRegistered id
          (on_session_event make_uuid short system_now port_to_string make (beats now b) s)
  unfolding on_session_event on_heartbeat contains_active
  beats-IsRegistered id now b s h active =
      let old : Option Entry = find b.id s.heartbeats in
      let e : Entry = update_entry port_to_string make now b old in
      ground (
        arith,
        h,
        terminated-is_active b.state,
        heartbeat_of_update now b old,
        find-insert b.id id e s.heartbeats,
        on_event_heartbeat-rows b s.resources id,
      )

  delete_found-Keeps :
      (id i : ℕ) (o : Option Instance) (r : Resources)
      → i ≢ id
      → is_some (find id r.instances) ≡ true
      → is_some (find id (delete_found i o r).1.instances) ≡ true
  unfolding delete_ability_instance
  delete_found-Keeps id i none r n h = h
  delete_found-Keeps id i (some x) r n h = ground (arith, n, h, find-erase i id r.instances)

  on_session_event-IsRegistered :
      (id : ℕ) (e : SessionEvent) (s : Session)
      → SparesInstance id e
      → IsRegistered id s
      → IsRegistered id (on_session_event make_uuid short system_now port_to_string make e s)
  unfolding on_session_event delete_ability_instance contains_active clear_stale_heartbeats
      on_ability_exit delete_instance
  on_session_event-IsRegistered id (starts first second) s n h active =
      auto_start_ability-holds make_uuid short system_now (Keeps id) (λ r k. k)
        (λ xs ys r s u f g k. g (f k)) (marks-Keeps id) (spawn_limited-Keeps id) first second
        s.resources (h active)
  on_session_event-IsRegistered id (beats now b) s n h active =
      beats-IsRegistered id now b s h active
  on_session_event-IsRegistered id (exits i parent) s n h active =
      ground (arith, h, find-erase i id s.heartbeats, find-erase i id s.resources.instances)
  on_session_event-IsRegistered id (clears now) s n h active =
      ground (arith, h, find-erase_ids id (stale_ids now s.heartbeats) s.heartbeats)
  on_session_event-IsRegistered id (deletes i) s n h active =
      delete_found-Keeps id i (find i s.resources.instances) s.resources n (h active)

  -- Over any history of automatic starts, heartbeats, exits, clearings and deletions of instances, of
  -- which none deletes this one, an ability that the lifecycle manager counts as active is a registered
  -- instance of the resource manager, where this is so at the start (when nothing is on record, say).
  pub run_session-IsRegistered :
      (id : ℕ) (es : List SessionEvent) (s : Session)
      → All (SparesInstance id) es
      → IsRegistered id s
      → IsRegistered id (run_session make_uuid short system_now port_to_string make es s)
  unfolding run_session
  run_session-IsRegistered id [] s n h = h
  run_session-IsRegistered id (e ∷ es) s n h =
      run_session-IsRegistered id es
        (on_session_event make_uuid short system_now port_to_string make e s) n.1
        (on_session_event-IsRegistered id e s n.0 h)
