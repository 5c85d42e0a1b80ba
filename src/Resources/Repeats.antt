-- ===== src/Resources/Repeats.antt =====
-- An instance that has not reported yet does not count as active: auto_start_ability of
-- src/resourcemgr/resource_mgr.cpp.
use ability_framework.Prelude.{
  ℕ, ◌+◌, ◌≤◌, String, Bool, true, false, ◌&&◌, ◌==◌, Option, none, some, [], ◌∷◌, ◌≡◌, refl, ap,
  ◌∙◌, arith, if◌then◌else◌, Map, find, insert, find-insert, uuid_key, is_some,
}
use ability_framework.Resources.Tables.{
  AbilitySpec, AbilityCr, Instance, Resources, StartRecord, get_ability_cr,
}
use ability_framework.Resources.Instances.{
  is_live, active_of, may_start, is_nil, or_true, get_active_instances_by_ability_name,
  start_record, started, new_instance, create_ability_instance, spawn_limited, spawn_checked,
  spawn_from, spawn_instance,
}

active_of-insert :
    (name : String) (id : ℕ) (i : Instance) (m : Map ℕ Instance)
    → is_live i.state ≡ false
    → is_nil (active_of name m) ≡ true
    → is_nil (active_of name (insert id i m)) ≡ true
unfolding active_of insert
active_of-insert name id i [] h k = ground (arith, h)
active_of-insert name id i ((j, k) ∷ m) h e = ground (arith, h, e, active_of-insert name id i m)

may_start_late :
    (now : ℕ) (s : StartRecord)
    → s.retry_count ≤ 2
    → s.last_start + 20 ≤ now
    → may_start now s ≡ true
may_start_late now s few late = ground arith

and_false : (b : Bool) → (b && false) ≡ false
and_false true = refl
and_false false = refl

-- The template is known, no instance of its ability is active, and its starts are not used up.
abbrev IsDue : ℕ → ℕ → AbilitySpec → Resources → Type 0
IsDue now id spec r =
    (cr : AbilityCr) × (get_ability_cr id r ≡ some cr)
    × (cr.spec ≡ some spec)
    × (is_nil (active_of spec.ability_name r.instances) ≡ true)
    × ((start_record (find id r.start_records)).retry_count ≤ 2)
    × ((start_record (find id r.start_records)).last_start + 20 ≤ now)

module _ (make_uuid : Resources → ℕ) (short : ℕ → String) (system_now : Resources → ℕ) where
  -- What such a start leaves.
  abbrev spawned : ℕ → ℕ → AbilityCr → AbilitySpec → Resources → Resources
  spawned now id cr spec r =
      create_ability_instance make_uuid short system_now (make_uuid r) cr spec (record r {
        start_records =
            insert id (started now (start_record (find id r.start_records))) r.start_records;
      })

  spawn_instance-IsDue :
      (now id : ℕ) (spec : AbilitySpec) (r : Resources) (d : IsDue now id spec r)
      → spawn_instance make_uuid short system_now now id r
        ≡ (some (make_uuid r), spawned now id d.0 spec r)
  unfolding spawn_instance spawn_from spawn_checked spawn_limited
      get_active_instances_by_ability_name
  spawn_instance-IsDue now id spec r (cr, known, has_spec, idle, few, late) =
      ap (λ c. spawn_from make_uuid short system_now now id c r) known
      ∙ ap
          (λ (s : Option AbilitySpec).
            let due : Option ℕ × Resources = elim s [
              | none ↦ (none, r)
              | some spec' ↦ spawn_checked make_uuid short system_now now id cr spec' r
            ] in
            due)
          has_spec
      ∙ rw
          (
            idle,
            and_false (or_true spec.singleton),
            may_start_late now (start_record (find id r.start_records)) few late,
          )
          refl

  find_created :
      (id j : ℕ) (cr : AbilityCr) (spec : AbilitySpec) (r : Resources)
      → is_some (find j (create_ability_instance make_uuid short system_now id cr spec r).instances)
        ≡ (if id == j then true else is_some (find j r.instances))
  unfolding create_ability_instance
  find_created id j cr spec r =
      ground
        (arith, find-insert id j (new_instance make_uuid short system_now id cr spec r) r.instances)

  find-spawned :
      (now id j : ℕ) (cr : AbilityCr) (spec : AbilitySpec) (r : Resources)
      → is_some (find j (spawned now id cr spec r).instances)
        ≡ (if make_uuid r == j then true else is_some (find j r.instances))
  find-spawned now id j cr spec r = find_created (make_uuid r) j cr spec (record r {
    start_records =
        insert id (started now (start_record (find id r.start_records))) r.start_records;
  })

  -- The template stays due when its instance does not report.
  spawned-IsDue :
      (now later id : ℕ) (spec : AbilitySpec) (r : Resources) (d : IsDue now id spec r)
      → (start_record (find id r.start_records)).retry_count ≤ 1
      → now + 20 ≤ later
      → IsDue later id spec (spawned now id d.0 spec r)
  unfolding create_ability_instance new_instance get_ability_cr
  spawned-IsDue now later id spec r (cr, known, has_spec, idle, _, _) few late =
      let s = start_record (find id r.start_records) in
      (
        cr,
        known,
        has_spec,
        active_of-insert spec.ability_name (make_uuid r) _ r.instances refl idle,
        ground (arith, find-insert id id (started now s) r.start_records),
        ground (arith, find-insert id id (started now s) r.start_records),
      )

  -- A template whose ability has no active instance, of which the framework has counted at most one
  -- start, at least twenty seconds ago, is started; and once more when twenty seconds have passed in
  -- which the new instance has not reported, whatever its specification says of being a singleton.
  -- The table then has a row for both instances.
  spawn_instance-again :
      (now later id : ℕ) (spec : AbilitySpec) (r : Resources)
      → IsDue now id spec r
      → (start_record (find id r.start_records)).retry_count ≤ 1
      → now + 20 ≤ later
      → let (first, r') = spawn_instance make_uuid short system_now now id r in
        let (second, r'') = spawn_instance make_uuid short system_now later id r' in
        (first ≡ some (make_uuid r))
        × (second ≡ some (make_uuid r'))
        × (is_some (find (make_uuid r) r''.instances) ≡ true)
        × (is_some (find (make_uuid r') r''.instances) ≡ true)
  spawn_instance-again now later id spec r d few late =
      let r' = spawned now id d.0 spec r in
      let d' : IsDue later id spec r' = spawned-IsDue now later id spec r d few late in
      rw (spawn_instance-IsDue now id spec r d) rw (spawn_instance-IsDue later id spec r' d') (
        refl,
        refl,
        ground (
          arith,
          find-spawned later id (make_uuid r) d'.0 spec r',
          find-spawned now id (make_uuid r) d.0 spec r,
        ),
        ground (
          arith,
          find-spawned later id (make_uuid r') d'.0 spec r',
          find-spawned now id (make_uuid r') d.0 spec r,
        ),
      )
