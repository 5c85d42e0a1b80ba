-- ===== src/Resources/Passes.antt =====
-- A relation between what auto_start_ability makes and the states around it, from its steps:
-- src/resourcemgr/resource_mgr.cpp.
use ability_framework.Prelude.{
  ℕ, String, not, ◌&&◌, Option, none, some, List, [], ◌∷◌, ◌++◌, by_cases,
}
use ability_framework.Resources.Tables.{AbilitySpec, AbilityCr, Resources, get_ability_cr}
use ability_framework.Resources.Instances.{
  mark_auto_started, need_autostart, keep_alive_ids, or_true, is_nil,
  get_active_instances_by_ability_name, spawn_limited, spawn_checked, spawn_from, spawn_instance,
  noted, autostart_loop, has_active, keep_one, keep_alive_loop, auto_start_ability,
}

module _ (make_uuid : Resources → ℕ) (short : ℕ → String) (system_now : Resources → ℕ)
    (R : List (ℕ × ℕ) → Resources → Resources → Type 0) (none_made : (r : Resources) → R [] r r)
    (both_made : (xs ys : List (ℕ × ℕ)) (r s u : Resources)
      → R xs r s
      → R ys s u
      → R (xs ++ ys) r u)
    (marks : (id : ℕ) (r : Resources) → R [] r (mark_auto_started id r))
    (spawned : (now id : ℕ) (cr : AbilityCr) (spec : AbilitySpec) (r : Resources)
      → let (made, r') = spawn_limited make_uuid short system_now now id cr spec r in
        R (noted id made) r r') where
  -- A spawn of one template, by what it made and the state it leaves.
  abbrev pub Spawns : ℕ → Resources → Option ℕ × Resources → Type 0
  Spawns id r (made, r') = R (noted id made) r r'

  spawn_instance-holds :
      (now id : ℕ) (r : Resources)
      → Spawns id r (spawn_instance make_uuid short system_now now id r)
  unfolding spawn_instance spawn_from spawn_checked
  spawn_instance-holds now id r = of_cr (get_ability_cr id r)
    where
      of_spec :
          (cr : AbilityCr) (spec : Option AbilitySpec)
          → Spawns id r (elim spec [
            | none ↦ (none, r)
            | some spec' ↦ spawn_checked make_uuid short system_now now id cr spec' r
          ])
      of_spec cr none = none_made r
      of_spec cr (some spec) =
          by_cases (Spawns id r)
            (or_true spec.singleton
              && not (is_nil (get_active_instances_by_ability_name spec.ability_name r)))
            (none_made r) (spawned now id cr spec r)

      of_cr :
          (cr : Option AbilityCr) → Spawns id r (spawn_from make_uuid short system_now now id cr r)
      of_cr none = none_made r
      of_cr (some cr) = of_spec cr cr.spec

  abbrev pub Passes : Resources → List (ℕ × ℕ) × Resources → Type 0
  Passes r (made, r') = R made r r'

  autostart_loop-holds :
      (now : ℕ → ℕ) (ids : List ℕ) (r : Resources)
      → Passes r (autostart_loop make_uuid short system_now now ids r)
  unfolding autostart_loop
  autostart_loop-holds now [] r = none_made r
  autostart_loop-holds now (id ∷ ids) r =
      let r' = mark_auto_started id r in
      let (made, s) = spawn_instance make_uuid short system_now (now id) id r' in
      let (rest, u) = autostart_loop make_uuid short system_now now ids s in
      both_made [] (noted id made ++ rest) r r' u (marks id r) (
        both_made (noted id made) rest r' s u (spawn_instance-holds (now id) id r')
          (autostart_loop-holds now ids s))

  keep_one-holds :
      (now id : ℕ) (r : Resources) → Spawns id r (keep_one make_uuid short system_now now id r)
  unfolding keep_one
  keep_one-holds now id r =
      by_cases (Spawns id r) (has_active (get_ability_cr id r) r) (none_made r)
        (spawn_instance-holds now id r)

  keep_alive_loop-holds :
      (now : ℕ → ℕ) (ids : List ℕ) (r : Resources)
      → Passes r (keep_alive_loop make_uuid short system_now now ids r)
  unfolding keep_alive_loop
  keep_alive_loop-holds now [] r = none_made r
  keep_alive_loop-holds now (id ∷ ids) r =
      let (made, s) = keep_one make_uuid short system_now (now id) id r in
      let (rest, u) = keep_alive_loop make_uuid short system_now now ids s in
      both_made (noted id made) rest r s u (keep_one-holds (now id) id r)
        (keep_alive_loop-holds now ids s)

  -- What holds of each step of a pass holds of the pass.
  pub auto_start_ability-holds :
      (first second : ℕ → ℕ) (r : Resources)
      → Passes r (auto_start_ability make_uuid short system_now first second r)
  unfolding auto_start_ability
  auto_start_ability-holds first second r =
      let (made, s) =
        autostart_loop make_uuid short system_now first (need_autostart r.templates) r in
      let (kept, u) =
        keep_alive_loop make_uuid short system_now second (keep_alive_ids s.templates) s in
      both_made made kept r s u (autostart_loop-holds first (need_autostart r.templates) r)
        (keep_alive_loop-holds second (keep_alive_ids s.templates) s)
