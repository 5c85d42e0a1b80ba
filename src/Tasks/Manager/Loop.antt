-- ===== src/Tasks/Manager/Loop.antt =====
-- The loop of TaskManager::update over the active handles.
use ability_framework.Prelude.{
  ℕ, zero, suc, ◌<◌, Bool, true, false, Option, none, some, List, [], ◌∷◌, ◌++◌, ◌≡◌, refl, arith,
  length, All,
}
use ability_framework.Tasks.State.{
  TaskState, unstarted, running, pending, fine, finished, error, cancelled,
}
use ability_framework.Tasks.Composite.{is_startable}

-- What one pass leaves: the handles sent to, and those kept.
abbrev pub Swept : Type 0
Swept = List ℕ × List ℕ

abbrev keep_first : ℕ → Option Swept → Option Swept
keep_first id none = none
keep_first id (some s) = some (id ∷ s.0, id ∷ s.1)

-- The switch on a task's state. A case that does not move the iterator (`pending`, by `default`)
-- looks at the same handle again; `none` as the state is a handle with no task.
unfoldable pub update_loop : ℕ → (ℕ → Option TaskState) → List ℕ → Option Swept
update_loop zero states ids = none
update_loop (suc fuel) states [] = some ([], [])
update_loop (suc fuel) states (id ∷ rest) = elim (states id) [
  | none ↦ none
  | some s ↦ elim s [
    | unstarted ↦ keep_first id (update_loop fuel states rest)
    | running ↦ keep_first id (update_loop fuel states rest)
    | fine ↦ keep_first id (update_loop fuel states rest)
    | finished ↦ update_loop fuel states rest
    | error ↦ update_loop fuel states rest
    | cancelled ↦ update_loop fuel states rest
    | pending ↦ update_loop fuel states (id ∷ rest)
  ]
]

module _ (states : ℕ → Option TaskState) where
  abbrev is_live : Option TaskState → Bool
  is_live none = false
  is_live (some s) = is_startable s

  -- The handles whose task is to be resumed.
  abbrev pub live : List ℕ → List ℕ
  live [] = []
  live (id ∷ rest) = elim (is_live (states id)) [ true ↦ id ∷ live rest | false ↦ live rest ]

  -- The task stands in the map, and does not wait as `pending`.
  abbrev pub IsReady : ℕ → Type 0
  IsReady id = (s : TaskState) × (states id ≡ some s) × ((s ≡ pending) → ⊥)

  pub update_loop-live :
      (fuel : ℕ) (ids : List ℕ)
      → All IsReady ids
      → length ids < fuel
      → update_loop fuel states ids ≡ some (live ids, live ids)
  unfolding update_loop
  update_loop-live zero ids ready enough = absurd (omega arith)
  update_loop-live (suc fuel) [] ready enough = refl
  update_loop-live (suc fuel) (id ∷ rest) ready enough =
      ground (arith, ready.0.1, ready.0.2, update_loop-live fuel rest ready.1)

  pub update_loop_hangs :
      (fuel id : ℕ) (before after : List ℕ)
      → states id ≡ some pending
      → update_loop fuel states (before ++ id ∷ after) ≡ none
  unfolding update_loop
  update_loop_hangs zero id before after waits = refl
  update_loop_hangs (suc fuel) id [] after waits =
      ground (arith, update_loop_hangs fuel id [] after waits)
  update_loop_hangs (suc fuel) id (j ∷ before) after waits = ground (
    arith,
    update_loop_hangs fuel id before after waits,
    update_loop_hangs fuel id (j ∷ before) after waits,
  )

  abbrev pub Keeps : (ℕ → Type 0) → Option Swept → Type 0
  Keeps P none = Unit
  Keeps P (some s) = All P s.1

  Keeps-first :
      (P : ℕ → Type 0) (id : ℕ) (o : Option Swept) → P id → Keeps P o → Keeps P (keep_first id o)
  Keeps-first P id none h k = tt
  Keeps-first P id (some s) h k = (h, k)

  -- The handles that are kept are among those there were.
  pub Keeps-update_loop :
      (P : ℕ → Type 0) (fuel : ℕ) (ids : List ℕ) → All P ids → Keeps P (update_loop fuel states ids)
  unfolding update_loop
  Keeps-update_loop P zero ids h = tt
  Keeps-update_loop P (suc fuel) [] h = tt
  Keeps-update_loop P (suc fuel) (id ∷ rest) h =
      visit (states id) (Keeps-update_loop P fuel rest h.1) (Keeps-update_loop P fuel (id ∷ rest) h)
    where
      visit :
          (o : Option TaskState)
          → Keeps P (update_loop fuel states rest)
          → Keeps P (update_loop fuel states (id ∷ rest))
          → Keeps P (elim o [
            | none ↦ none
            | some s ↦ elim s [
              | unstarted ↦ keep_first id (update_loop fuel states rest)
              | running ↦ keep_first id (update_loop fuel states rest)
              | fine ↦ keep_first id (update_loop fuel states rest)
              | finished ↦ update_loop fuel states rest
              | error ↦ update_loop fuel states rest
              | cancelled ↦ update_loop fuel states rest
              | pending ↦ update_loop fuel states (id ∷ rest)
            ]
          ])
      visit none k again = tt
      visit (some unstarted) k again = Keeps-first P id _ h.0 k
      visit (some running) k again = Keeps-first P id _ h.0 k
      visit (some fine) k again = Keeps-first P id _ h.0 k
      visit (some finished) k again = k
      visit (some error) k again = k
      visit (some cancelled) k again = k
      visit (some pending) k again = again
