-- ===== src/Resources/Instances.antt =====
-- The running instances of abilities, and the starts of the framework's own accord:
-- src/resourcemgr/resource_mgr.cpp, and the route DELETE /api/instance/:id of
-- src/resourcemgr/resource_mgr_http_apis.cpp.
use Prim.Native.String.{◌++◌ as str_append}
use text.Mathlib.Text.{◌==◌ as str_eq}
use ability_framework.Prelude.{
  ℕ, ◌+◌, String, Bool, true, false, not, ◌&&◌, ◌||◌, Option, none, some, List, [], ◌∷◌, ◌++◌, ltb,
  leb, if◌then◌else◌, Map, find, insert, erase, uuid_key,
}
use ability_framework.Lifecycle.Heartbeat.{
  LifecycleState, inactive, terminated, Heartbeat, same_state,
}
use ability_framework.Resources.Tables.{
  AbilitySpec, AbilityCr, Template, Instance, StartRecord, Resources, get_ability_cr,
}

-- `state NOT IN ('Inactive', 'Terminated')`
abbrev pub is_live : LifecycleState → Bool
is_live s = not (same_state s inactive || same_state s terminated)

-- `WHERE ability_name = ? AND state NOT IN ('Inactive', 'Terminated')`
unfoldable pub active_of : String → Map ℕ Instance → Map ℕ Instance
active_of name [] = []
active_of name ((id, i) ∷ m) =
    let rest = active_of name m in
    if str_eq i.ability_name name && is_live i.state then (id, i) ∷ rest else rest

unfoldable pub get_active_instances_by_ability_name : String → Resources → Map ℕ Instance
get_active_instances_by_ability_name name r = active_of name r.instances

abbrev pub ids_of : Map ℕ Instance → List ℕ
ids_of [] = []
ids_of ((id, i) ∷ m) = id ∷ ids_of m

unfoldable pub get_heartbeats_by_ability_name : String → Resources → List ℕ
get_heartbeats_by_ability_name name r = ids_of (active_of name r.instances)

unfoldable pub get_ability_instance : ℕ → Resources → Option Instance
get_ability_instance id r = find id r.instances

unfoldable pub get_all_ability_instances : Resources → Map ℕ Instance
get_all_ability_instances r = r.instances

-- delete_ability_instance, which also serves the notice that a process has exited.
unfoldable pub delete_ability_instance : ℕ → Resources → Resources
delete_ability_instance id r = record r { instances = erase id r.instances }

-- The route DELETE /api/instance/:id: whether it sends "terminate" to the lifecycle manager, `none` for
-- an instance that is not found. The row is deleted at once.
abbrev pub delete_found : ℕ → Option Instance → Resources → Option Bool × Resources
delete_found id none r = (none, r)
delete_found id (some i) r = (some (is_live i.state), delete_ability_instance id r)

unfoldable pub delete_instance : ℕ → Resources → Option Bool × Resources
unfolding delete_ability_instance
delete_instance id r = delete_found id (find id r.instances) r

-- on_event_heartbeat: whether the heartbeat is accepted.
abbrev pub heard : Heartbeat → Instance → Instance
heard h i = record i { state = h.state; ports = some (h.ability_port, h.ipc_port) }

unfoldable pub update_instance : Heartbeat → Option Instance → Resources → Bool × Resources
update_instance h none r = (false, r)
update_instance h (some i) r = (true, record r { instances = insert h.id (heard h i) r.instances })

unfoldable pub on_event_heartbeat : Heartbeat → Resources → Bool × Resources
unfolding update_instance delete_ability_instance
on_event_heartbeat h r =
    if same_state h.state terminated
    then (true, delete_ability_instance h.id r)
    else update_instance h (find h.id r.instances) r

-- on_register: the rows that a framework left behind, and the marks of its automatic starts.
abbrev pub retired : ℕ → Instance → Instance
retired now i = if is_live i.state then record i { state = terminated; stop_time = some now } else i

unfoldable pub retire_all : ℕ → Map ℕ Instance → Map ℕ Instance
retire_all now [] = []
retire_all now ((id, i) ∷ m) = (id, retired now i) ∷ retire_all now m

unfoldable pub reset_auto_started : Map ℕ Template → Map ℕ Template
reset_auto_started [] = []
reset_auto_started ((id, t) ∷ m) =
    (id, if t.autostart then record t { auto_started = false } else t) ∷ reset_auto_started m

unfoldable pub on_register : ℕ → Resources → Resources
unfolding retire_all reset_auto_started
on_register now r = record r {
  instances = retire_all now r.instances;
  templates = reset_auto_started r.templates;
}

-- db_get_ability_cr_is_autostart
unfoldable pub is_autostart : ℕ → Resources → Bool
is_autostart id r = elim (find id r.templates) [ none ↦ false | some t ↦ t.autostart ]

-- db_get_ability_cr_need_autostart
unfoldable pub need_autostart : Map ℕ Template → List ℕ
need_autostart [] = []
need_autostart ((id, t) ∷ m) =
    let rest = need_autostart m in if t.autostart && not t.auto_started then id ∷ rest else rest

-- db_get_ability_cr_keep_alive
unfoldable pub keep_alive_ids : Map ℕ Template → List ℕ
keep_alive_ids [] = []
keep_alive_ids ((id, t) ∷ m) =
    let rest = keep_alive_ids m in if t.keep_alive then id ∷ rest else rest

-- db_mark_auto_started
unfoldable pub mark : Option Template → ℕ → Map ℕ Template → Map ℕ Template
mark none id m = m
mark (some t) id m = insert id (record t { auto_started = true }) m

unfoldable pub mark_auto_started : ℕ → Resources → Resources
unfolding mark
mark_auto_started id r = record r { templates = mark (find id r.templates) id r.templates }

abbrev pub or_true : Option Bool → Bool
or_true none = true
or_true (some b) = b

abbrev pub is_nil : Map ℕ Instance → Bool
is_nil [] = true
is_nil (e ∷ m) = false

-- start_records[id], which makes a record where there is none.
abbrev pub start_record : Option StartRecord → StartRecord
start_record none = record { last_start = 0; retry_count = 0 }
start_record (some s) = s

-- The limit of three starts of a template, twenty seconds apart. The times are seconds.
abbrev pub may_start : ℕ → StartRecord → Bool
may_start now s =
    if leb 3 s.retry_count then false else not (ltb 0 s.retry_count && ltb now (s.last_start + 20))

abbrev pub started : ℕ → StartRecord → StartRecord
started now s = record { last_start = now; retry_count = s.retry_count + 1 }

-- The templates of which an instance was made, with the instance.
abbrev pub noted : ℕ → Option ℕ → List (ℕ × ℕ)
noted id none = []
noted id (some instance_id) = (id, instance_id) ∷ []

abbrev pub has_active : Option AbilityCr → Resources → Bool
has_active none r = true
has_active (some cr) r = elim (cr.spec) [
  | none ↦ true
  | some spec ↦ not (is_nil (get_active_instances_by_ability_name spec.ability_name r))
]

-- `make_uuid` gives the id of the next instance, `short` the first eight characters of its text,
-- `system_now` the time of day.
module _ (make_uuid : Resources → ℕ) (short : ℕ → String) (system_now : Resources → ℕ) where
  unfoldable pub new_instance : ℕ → AbilityCr → AbilitySpec → Resources → Instance
  new_instance id cr spec r = record {
    cr_id = cr.id;
    cr_name = cr.name;
    instance_name = str_append cr.name (str_append "-" (short id));
    ability_name = spec.ability_name;
    ability_version = spec.version;
    state = inactive;
    start_time = system_now r;
    stop_time = none;
    spec_snapshot = some (record cr { id = id; lifecycle_state = some inactive });
    ports = none;
  }

  unfoldable pub create_ability_instance : ℕ → AbilityCr → AbilitySpec → Resources → Resources
  unfolding new_instance
  create_ability_instance id cr spec r = record r {
    instances = insert id (new_instance id cr spec r) r.instances;
  }

  -- The end of spawn_instance_from_template: the limit, then the instance, whose id is given back.
  -- The task that starts and connects it is submitted under that id.
  unfoldable pub spawn_limited : ℕ → ℕ → AbilityCr → AbilitySpec → Resources → Option ℕ × Resources
  spawn_limited now id cr spec r =
      let s = start_record (find id r.start_records) in
      if may_start now s
      then (
        some (make_uuid r),
        create_ability_instance (make_uuid r) cr spec
            (record r { start_records = insert id (started now s) r.start_records }),
      )
      else (none, r)

  unfoldable pub spawn_checked : ℕ → ℕ → AbilityCr → AbilitySpec → Resources → Option ℕ × Resources
  spawn_checked now id cr spec r =
      if or_true spec.singleton
        && not (is_nil (get_active_instances_by_ability_name spec.ability_name r))
      then (none, r)
      else spawn_limited now id cr spec r

  unfoldable pub spawn_from : ℕ → ℕ → Option AbilityCr → Resources → Option ℕ × Resources
  spawn_from now id none r = (none, r)
  spawn_from now id (some cr) r = elim (cr.spec) [
    | none ↦ (none, r)
    | some spec ↦ spawn_checked now id cr spec r
  ]

  -- spawn_instance_from_template
  unfoldable pub spawn_instance : ℕ → ℕ → Resources → Option ℕ × Resources
  unfolding spawn_from
  spawn_instance now id r = spawn_from now id (get_ability_cr id r) r

  -- The first loop of auto_start_ability; `now` reads the clock for a template.
  unfoldable pub autostart_loop : (ℕ → ℕ) → List ℕ → Resources → List (ℕ × ℕ) × Resources
  autostart_loop now [] r = ([], r)
  autostart_loop now (id ∷ ids) r =
      let (made, r') = spawn_instance (now id) id (mark_auto_started id r) in
      let (rest, r'') = autostart_loop now ids r' in (noted id made ++ rest, r'')

  -- The body of the second loop, which passes over a template with an active instance.
  unfoldable pub keep_one : ℕ → ℕ → Resources → Option ℕ × Resources
  keep_one now id r =
      if has_active (get_ability_cr id r) r then (none, r) else spawn_instance now id r

  unfoldable pub keep_alive_loop : (ℕ → ℕ) → List ℕ → Resources → List (ℕ × ℕ) × Resources
  keep_alive_loop now [] r = ([], r)
  keep_alive_loop now (id ∷ ids) r =
      let (made, r') = keep_one (now id) id r in
      let (rest, r'') = keep_alive_loop now ids r' in (noted id made ++ rest, r'')

  unfoldable pub auto_start_ability : (ℕ → ℕ) → (ℕ → ℕ) → Resources → List (ℕ × ℕ) × Resources
  unfolding autostart_loop keep_alive_loop
  auto_start_ability first second r =
      let (made, r') = autostart_loop first (need_autostart r.templates) r in
      let (kept, r'') = keep_alive_loop second (keep_alive_ids r'.templates) r' in
      (made ++ kept, r'')
