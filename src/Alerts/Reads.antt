-- ===== src/Alerts/Reads.antt =====
-- What is read of the alerts that were stored: src/abilityalertmgr/abilityalert_mgr.cpp.
use ability_framework.Prelude.{
  ℕ, String, Bool, false, ◌&&◌, ◌||◌, Option, none, some, List, [], ◌∷◌, ◌++◌, ◌==◌, if◌then◌else◌,
}
use text.Mathlib.Text.{◌==◌ as str_eq}
use ability_framework.Alerts.{
  AbilityAlert, AlertRow, push_back, is_wanted, keep, take, latest_first,
}

module _ {J : Type 0} where
  -- The rows after alerts have arrived in turn; one that throws leaves them.
  abbrev pub or_rows : List (AlertRow J) → Option (List (AlertRow J)) → List (AlertRow J)
  or_rows old none = old
  or_rows old (some new) = new

  abbrev pub store : List (AbilityAlert J) → List (AlertRow J) → List (AlertRow J)
  store [] rows = rows
  store (a ∷ rest) rows = store rest (or_rows rows (push_back a rows))

  -- The alerts themselves, each kept unless one of the same ability and time was.
  abbrev pub is_stored : AbilityAlert J → List (AbilityAlert J) → Bool
  is_stored a [] = false
  is_stored a (b ∷ rest) =
      (b.ability_info.id == a.ability_info.id && str_eq b.time a.time) || is_stored a rest

  abbrev pub stored : List (AbilityAlert J) → List (AbilityAlert J) → List (AbilityAlert J)
  stored [] kept = kept
  stored (a ∷ rest) kept = stored rest (if is_stored a kept then kept else kept ++ a ∷ [])

  module _ (before : String → String → Bool) where
    -- What a query answers, in terms of the alerts.
    abbrev pub answer : ℕ → ℕ → List (AbilityAlert J) → List (AbilityAlert J)
    answer wanted n kept =
        take n
          (latest_first before (λ a. a.time) (keep (λ a. is_wanted wanted a.ability_info.id) kept))
