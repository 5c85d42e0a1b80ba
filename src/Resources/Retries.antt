-- ===== src/Resources/Retries.antt =====
-- How often the framework starts a template by itself: auto_start_ability of
-- src/resourcemgr/resource_mgr.cpp.
use ability_framework.Prelude.{
  Option, none, some, refl, ℕ, ◌+◌, ◌≤◌, String, List, [], ◌∷◌, ◌++◌, ◌==◌, ◌≡◌, arith,
  if◌then◌else◌, find, find-insert, uuid_key,
}
use ability_framework.Lifecycle.Heartbeat.{Heartbeat}
use ability_framework.Resources.Tables.{AbilitySpec, AbilityCr, Instance, Resources}
use ability_framework.Resources.Passes.{auto_start_ability-holds}
use ability_framework.Resources.Instances.{
  delete_found, delete_ability_instance, update_instance, on_event_heartbeat, mark_auto_started,
  start_record, started, create_ability_instance, spawn_limited, noted, auto_start_ability,
}

-- The starts of a template among those of a pass.
abbrev pub count : ℕ → List (ℕ × ℕ) → ℕ
count t [] = 0
count t ((id, i) ∷ made) = (if id == t then 1 else 0) + count t made

pub count-append : (t : ℕ) (xs ys : List (ℕ × ℕ)) → count t (xs ++ ys) ≡ count t xs + count t ys
count-append t [] ys = omega arith
count-append t ((id, i) ∷ xs) ys = omega (arith, count-append t xs ys)

abbrev pub retries : ℕ → Resources → ℕ
retries t r = (start_record (find t r.start_records)).retry_count

-- What a call made is what the count of retries grew by, and the count stays within three.
abbrev pub Counts : ℕ → List (ℕ × ℕ) → Resources → Resources → Type 0
Counts t made r r' =
    (retries t r' ≡ retries t r + count t made) × (retries t r ≤ 3 → retries t r' ≤ 3)

Counts-none : (t : ℕ) (r : Resources) → Counts t [] r r
Counts-none t r = (omega arith, λ h. h)

Counts-both :
    (t : ℕ) (xs ys : List (ℕ × ℕ)) (r s u : Resources)
    → Counts t xs r s
    → Counts t ys s u
    → Counts t (xs ++ ys) r u
Counts-both t xs ys r s u (e, h) (f, k) = (omega (arith, e, f, count-append t xs ys), λ b. k (h b))

pub on_event_heartbeat-retries :
    (t : ℕ) (h : Heartbeat) (r : Resources) → retries t (on_event_heartbeat h r).1 ≡ retries t r
unfolding on_event_heartbeat update_instance delete_ability_instance
on_event_heartbeat-retries t h r = ground arith

pub delete_found-retries :
    (t id : ℕ) (o : Option Instance) (r : Resources)
    → retries t (delete_found id o r).1 ≡ retries t r
unfolding delete_ability_instance
delete_found-retries t id none r = refl
delete_found-retries t id (some i) r = refl

marks-Counts : (t id : ℕ) (r : Resources) → Counts t [] r (mark_auto_started id r)
unfolding mark_auto_started
marks-Counts t id r = Counts-none t r

module _ (make_uuid : Resources → ℕ) (short : ℕ → String) (system_now : Resources → ℕ) where
  spawn_limited-Counts :
      (t now id : ℕ) (cr : AbilityCr) (spec : AbilitySpec) (r : Resources)
      → let (made, r') = spawn_limited make_uuid short system_now now id cr spec r in
        Counts t (noted id made) r r'
  unfolding spawn_limited create_ability_instance
  spawn_limited-Counts t now id cr spec r =
      let s = start_record (find id r.start_records) in
      (
        ground (arith, find-insert id t (started now s) r.start_records),
        λ h. ground (arith, h, find-insert id t (started now s) r.start_records),
      )

  pub auto_start_ability-Counts :
      (t : ℕ) (first second : ℕ → ℕ) (r : Resources)
      → let (made, r') = auto_start_ability make_uuid short system_now first second r in
        Counts t made r r'
  auto_start_ability-Counts t =
      auto_start_ability-holds make_uuid short system_now (Counts t) (Counts-none t) (Counts-both t)
        (marks-Counts t) (spawn_limited-Counts t)
