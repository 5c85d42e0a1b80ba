-- ===== src/Tasks/Manager/Invariant.antt =====
-- The invariant of the task manager: every active handle has a task, whatever the operations.
use mathlib.Core.Option.{some-injective}
use Prim.Native.String.{◌++◌ as str_append}
use text.Mathlib.Text.{◌==◌ as str_eq}
use ability_framework.Prelude.{
  ap, subst, Bool-cases, ◌∙◌, same_refl, ℕ, Bool, true, false, Option, none, some, List, [], ◌∷◌,
  ◌≡◌, arith, All, inl, inr, ◌==◌, if◌then◌else◌, find-insert, find, insert, uuid_key, name_key,
  String,
}
use ability_framework.Tasks.Task.{
  TaskBase, atomic, Attempt, returned, threw, Now, Task, TaskStatus, Round, base,
}
use ability_framework.Tasks.Resume.{resume}
use ability_framework.Tasks.Manager.Loop.{update_loop}
use ability_framework.Tasks.Manager.{
  TaskManager, add_id, add, at, state_of, update, on_async, created, create_task, after_sweep,
  after_round, give_round,
}
use ability_framework.Tasks.Manager.Loop.{Swept, Keeps, Keeps-update_loop}
use ability_framework.Tasks.Manager.Laws.{at-add}
use ability_framework.Tasks.Manager.{
  silent, Request, TaskFactory, add_task_json, make_task_json, add_task_raw, add_task_factory_raw,
  unknown_operation, Response, on_receive, receive_json,
}

All-add_id : (P : ℕ → Type 0) (id : ℕ) (ids : List ℕ) → P id → All P ids → All P (add_id id ids)
unfolding add_id
All-add_id P id [] h hs = (h, tt)
All-add_id P id (j ∷ js) h hs = ground (arith, All-add_id P id js h hs.1)

All-map : (P Q : ℕ → Type 0) (ids : List ℕ) → ((i : ℕ) → P i → Q i) → All P ids → All Q ids
All-map P Q [] f h = tt
All-map P Q (i ∷ is) f h = (f i h.0, All-map P Q is f h.1)

module _ {W J : Type 0} where
  -- The invariant: every active handle has a task.
  abbrev pub HasTask : TaskManager W J → ℕ → Type 0
  HasTask m id = (t : Task W J) × (at id m ≡ some t)

  abbrev pub IsWhole : TaskManager W J → Type 0
  IsWhole m = All (HasTask m) m.active

  HasTask-add :
      (now : Now) (t : Task W J) (m : TaskManager W J) (i : ℕ)
      → HasTask m i
      → HasTask (add now t m) i
  HasTask-add now t m i (u, e) = elim (Bool-cases ((base t).uuid == i)) [
    | inl same ↦ (t, at-add now t m i ∙ rw same)
    | inr other ↦ (u, at-add now t m i ∙ rw other e)
  ]

  pub add-IsWhole :
      (now : Now) (t : Task W J) (m : TaskManager W J) → IsWhole m → IsWhole (add now t m)
  unfolding add
  add-IsWhole now t m whole =
      All-add_id (HasTask (add now t m)) (base t).uuid m.active
        (t, at-add now t m (base t).uuid ∙ rw (same_refl (base t).uuid))
        (All-map (HasTask m) (HasTask (add now t m)) m.active (HasTask-add now t m) whole)

  swept-IsWhole :
      (m m' : TaskManager W J) (sent : List ℕ) (o : Option Swept)
      → Keeps (state_of m) (HasTask m) o
      → after_sweep m o ≡ some (sent, m')
      → IsWhole m'
  unfolding at
  swept-IsWhole m m' sent none k e = cc
  swept-IsWhole m m' sent (some s) k e =
      subst IsWhole (ap (λ (q : List ℕ × TaskManager W J). q.1) (some-injective _ _ e)) k

  pub update-IsWhole :
      (fuel : ℕ) (m m' : TaskManager W J) (sent : List ℕ)
      → IsWhole m
      → update fuel m ≡ some (sent, m')
      → IsWhole m'
  unfolding update
  update-IsWhole fuel m m' sent whole e =
      swept-IsWhole m m' sent (update_loop fuel (state_of m) m.active)
        (Keeps-update_loop (state_of m) (HasTask m) fuel m.active whole) e

  stored-IsWhole :
      (m : TaskManager W J) (id : ℕ) (t : Task W J)
      → IsWhole m
      → IsWhole (record m { tasks = insert id t m.tasks })
  unfolding at
  stored-IsWhole m id t whole = All-map (HasTask m) _ m.active keep whole
    where
      keep : (i : ℕ) → HasTask m i → HasTask (record m { tasks = insert id t m.tasks }) i
      keep i (u, e) = elim (Bool-cases (id == i)) [
        | inl same ↦ (t, find-insert id i t m.tasks ∙ rw same)
        | inr different ↦ (u, find-insert id i t m.tasks ∙ rw different e)
      ]

  on_async-IsWhole :
      (fuel : ℕ) (now : Now) (id : ℕ) (m m' : TaskManager W J) (w w' : W)
      (out : List (TaskStatus J))
      → IsWhole m
      → on_async fuel now id m w ≡ some (m', w', out)
      → IsWhole m'
  unfolding on_async
  on_async-IsWhole fuel now id m m' w w' out whole e = looked_up (at id m) e
    where
      resumed : (o : Option (Round W J)) → after_round id m o ≡ some (m', w', out) → IsWhole m'
      resumed none e = cc
      resumed (some r) e =
          subst IsWhole
            (ap (λ (q : TaskManager W J × W × List (TaskStatus J)). q.0) (some-injective _ _ e))
            (stored-IsWhole m id r.task whole)

      looked_up :
          (o : Option (Task W J)) → give_round fuel now id m w o ≡ some (m', w', out) → IsWhole m'
      looked_up none e =
          subst IsWhole
            (ap (λ (q : TaskManager W J × W × List (TaskStatus J)). q.0) (some-injective _ _ e))
            whole
      looked_up (some t) e = resumed (resume fuel now t w) e

  receive_json-IsWhole :
      (hello : W → Attempt (Unit {0}) × W) (now : Now) (kind : String) (b : TaskBase)
      (m : TaskManager W J)
      → IsWhole m
      → IsWhole (receive_json hello now kind b m).1
  unfolding receive_json
  receive_json-IsWhole hello now kind b m whole =
      split (str_eq kind "atomic") (str_eq kind "sequence") (str_eq kind "parallel")
    where
      split :
          (c d e : Bool)
          → let r : Attempt Response × TaskManager W J =
              if c
              then (returned silent, add now (atomic b hello) m)
              else if d
              then (returned silent, m)
              else if e
              then (returned silent, m)
              else (threw "Unknown task type", m) in
            IsWhole r.1
      split true d e = add-IsWhole now (atomic b hello) m whole
      split false true e = whole
      split false false true = whole
      split false false false = whole

  on_receive-IsWhole :
      (hello : W → Attempt (Unit {0}) × W) (now : Now) (q : Request W J) (m : TaskManager W J)
      → IsWhole m
      → IsWhole (on_receive hello now q m).1
  unfolding on_receive at
  on_receive-IsWhole hello now (add_task_json name kind b) m whole =
      receive_json-IsWhole hello now kind (record b { name = name }) m whole
  on_receive-IsWhole hello now make_task_json m whole = whole
  on_receive-IsWhole hello now (add_task_raw none) m whole = whole
  on_receive-IsWhole hello now (add_task_raw (some t)) m whole = add-IsWhole now t m whole
  on_receive-IsWhole hello now (add_task_factory_raw none task_type) m whole = whole
  on_receive-IsWhole hello now (add_task_factory_raw (some f) none) m whole = whole
  on_receive-IsWhole hello now (add_task_factory_raw (some none) (some task_type)) m whole = whole
  on_receive-IsWhole hello now (add_task_factory_raw (some (some f)) (some task_type)) m whole =
      whole
  on_receive-IsWhole hello now unknown_operation m whole = whole

  create_task-IsWhole :
      (now : Now) (task_type : String) (payload : J) (m : TaskManager W J)
      → IsWhole m
      → IsWhole (create_task now task_type payload m).1
  unfolding create_task
  create_task-IsWhole now task_type payload m whole = found (find task_type m.task_factories)
    where
      made : (a : Attempt (Option (Task W J))) → IsWhole (created now task_type a m).1
      made (returned none) = whole
      made (returned (some t)) = add-IsWhole now t m whole
      made (threw x) = whole

      found :
          (o : Option (TaskFactory W J))
          → let r : Attempt ℕ × TaskManager W J = elim o [
            | none ↦ (threw (str_append "unknown task type: " task_type), m)
            | some factory ↦ created now task_type (factory payload) m
          ] in
            IsWhole r.1
      found none = whole
      found (some factory) = made (factory payload)

  -- One event of the manager's life: a task added, the timer, a handle's round, a message, a POST.
  pub data Step (hello : W → Attempt (Unit {0}) × W) (m : TaskManager W J)
      : TaskManager W J → Type 0 where
    added : (now : Now) (t : Task W J) → Step hello m (add now t m)
    updated :
        (fuel : ℕ) (sent : List ℕ) {m' : TaskManager W J}
        → update fuel m ≡ some (sent, m')
        → Step hello m m'
    resumed :
        (fuel : ℕ) (now : Now) (id : ℕ) (w w' : W) (out : List (TaskStatus J))
        {m' : TaskManager W J}
        → on_async fuel now id m w ≡ some (m', w', out)
        → Step hello m m'
    received : (now : Now) (q : Request W J) → Step hello m (on_receive hello now q m).1
    posted :
        (now : Now) (kind : String) (payload : J) → Step hello m (create_task now kind payload m).1

  pub data Reach (hello : W → Attempt (Unit {0}) × W) (m : TaskManager W J)
      : TaskManager W J → Type 0 where
    here : Reach hello m m
    next : {m1 m2 : TaskManager W J} → Reach hello m m1 → Step hello m1 m2 → Reach hello m m2

  Step-IsWhole :
      {hello : W → Attempt (Unit {0}) × W} {m m' : TaskManager W J}
      → Step hello m m'
      → IsWhole m
      → IsWhole m'
  Step-IsWhole {m} (added now t) whole = add-IsWhole now t m whole
  Step-IsWhole {m} (updated fuel sent {m'} e) whole = update-IsWhole fuel m m' sent whole e
  Step-IsWhole {m} (resumed fuel now id w w' out {m'} e) whole =
      on_async-IsWhole fuel now id m m' w w' out whole e
  Step-IsWhole {hello} {m} (received now q) whole = on_receive-IsWhole hello now q m whole
  Step-IsWhole {m} (posted now kind payload) whole = create_task-IsWhole now kind payload m whole

  -- From a manager in which every active handle has a task, no sequence of events (tasks added, the
  -- timer, rounds, messages, POST requests, in any order) leads to an active handle without one.
  pub Reach-IsWhole :
      {hello : W → Attempt (Unit {0}) × W} {m m' : TaskManager W J}
      → IsWhole m
      → Reach hello m m'
      → IsWhole m'
  Reach-IsWhole whole here = whole
  Reach-IsWhole whole (next r s) = Step-IsWhole s (Reach-IsWhole whole r)
