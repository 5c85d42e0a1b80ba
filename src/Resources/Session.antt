-- ===== src/Resources/Session.antt =====
-- A session of the framework: the instances of src/resourcemgr/resource_mgr.cpp beside the heartbeats
-- of src/lifecyclemgr/lifecycle_mgr.cpp. A heartbeat goes to the lifecycle manager, which asks the
-- resource manager whether to accept it; an exit goes to the lifecycle manager, which tells the
-- resource manager.
use ability_framework.Prelude.{
  ℕ, ◌≤◌, String, Option, some, List, [], ◌∷◌, ◌++◌, ◌≡◌, arith, find, uuid_key,
}
use ability_framework.Lifecycle.Heartbeat.{Heartbeat}
use ability_framework.Lifecycle.Client.{HttpClient}
use ability_framework.Lifecycle.Manager.{
  Heartbeats, on_heartbeat, clear_stale_heartbeats, on_ability_exit,
}
use ability_framework.Resources.Tables.{Resources}
use ability_framework.Resources.Instances.{
  delete_instance, delete_ability_instance, on_event_heartbeat, auto_start_ability,
}
use ability_framework.Resources.Retries.{
  count, count-append, retries, auto_start_ability-Counts, on_event_heartbeat-retries,
  delete_found-retries,
}

-- What happens: a pass of automatic starts with its two readings of the clock, a heartbeat, the exit
-- of a process with the parent that the resource manager names, the clearing of old heartbeats, and a
-- DELETE of an instance (the message "terminate" that it may send changes neither table by itself).
pub data SessionEvent : Type 0 where
  starts : (ℕ → ℕ) → (ℕ → ℕ) → SessionEvent
  beats : ℕ → Heartbeat → SessionEvent
  exits : ℕ → Option ℕ → SessionEvent
  clears : ℕ → SessionEvent
  deletes : ℕ → SessionEvent

pub record Session : Type 0 where
  pub resources : Resources
  pub heartbeats : Heartbeats
  pub made : List (ℕ × ℕ)

module _ (make_uuid : Resources → ℕ) (short : ℕ → String) (system_now : Resources → ℕ)
    (port_to_string : ℕ → String) (make : String → Option HttpClient) where
  unfoldable pub on_session_event : SessionEvent → Session → Session
  on_session_event (starts first second) s =
      let (made, r) = auto_start_ability make_uuid short system_now first second s.resources in
      record s { resources = r; made = s.made ++ made }
  on_session_event (beats now h) s =
      let (accepted, r) = on_event_heartbeat h s.resources in
      record s {
        resources = r;
        heartbeats = (on_heartbeat port_to_string make now h (some accepted) s.heartbeats).1;
      }
  on_session_event (exits id parent) s = record s {
    resources = delete_ability_instance id s.resources;
    heartbeats = (on_ability_exit id parent s.heartbeats).1;
  }
  on_session_event (clears now) s = record s {
    heartbeats = clear_stale_heartbeats now s.heartbeats;
  }
  on_session_event (deletes id) s = record s { resources = (delete_instance id s.resources).1 }

  unfoldable pub run_session : List SessionEvent → Session → Session
  run_session [] s = s
  run_session (e ∷ es) s = run_session es (on_session_event e s)

  -- The count of retries is the count of starts, and is at most three.
  abbrev IsCounted : ℕ → Session → Type 0
  IsCounted t s = (retries t s.resources ≡ count t s.made) × (retries t s.resources ≤ 3)

  on_session_event-IsCounted :
      (t : ℕ) (e : SessionEvent) (s : Session) → IsCounted t s → IsCounted t (on_session_event e s)
  unfolding on_session_event delete_ability_instance delete_instance
  on_session_event-IsCounted t (starts first second) s (c, b) =
      let (made, _) = auto_start_ability make_uuid short system_now first second s.resources in
      let (grown, kept) =
        auto_start_ability-Counts make_uuid short system_now t first second s.resources in
      (omega (arith, c, grown, count-append t s.made made), kept b)
  on_session_event-IsCounted t (beats now h) s (c, b) =
      omega (arith, c, b, on_event_heartbeat-retries t h s.resources)
  on_session_event-IsCounted t (exits id parent) s h = h
  on_session_event-IsCounted t (clears now) s h = h
  on_session_event-IsCounted t (deletes id) s (c, b) =
      omega (arith, c, b, delete_found-retries t id (find id s.resources.instances) s.resources)

  run_session-IsCounted :
      (t : ℕ) (es : List SessionEvent) (s : Session)
      → IsCounted t s
      → IsCounted t (run_session es s)
  unfolding run_session
  run_session-IsCounted t [] s h = h
  run_session-IsCounted t (e ∷ es) s h =
      run_session-IsCounted t es (on_session_event e s) (on_session_event-IsCounted t e s h)

  -- In a session that begins with nothing started, over any history of automatic starts, heartbeats,
  -- exits, clearings and deletions of instances, the framework makes at most three instances of a template of its own accord,
  -- and the count of its retries is their number.
  pub run_session_bounded :
      (t : ℕ) (es : List SessionEvent) (s : Session)
      → s.made ≡ []
      → s.resources.start_records ≡ []
      → (count t (run_session es s).made ≤ 3)
        × (retries t (run_session es s).resources ≡ count t (run_session es s).made)
  unfolding find
  run_session_bounded t es s m n =
      let (c, b) = run_session-IsCounted t es s (ground (arith, m, n), ground (arith, n)) in
      (omega (arith, c, b), c)
