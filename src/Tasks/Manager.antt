-- ===== src/Tasks/Manager.antt =====
-- include/taskmgr/task_mgr.hpp and src/taskmgr/task_entry.cpp: the task manager. A uuid is its number.
-- A uv handle is kept in `active` by the uuid of its task, which stands in `tasks`: handle and entry
-- share one task object. `active` is in the order of insertion, where std::map goes by uuid. The callbacks of the event loop are the operations `update` and `on_async`.
pub mod Loop
pub mod Laws
pub mod Invariant
use ability_framework.Prelude.{
  ℕ, zero, suc, String, Bool, true, false, Option, none, some, List, [], ◌∷◌, ◌++◌, ◌==◌,
  if◌then◌else◌, Map, find, insert, uuid_key, name_key,
}
use Prim.Native.String.{◌++◌ as str_append}
use text.Mathlib.Text.{◌==◌ as str_eq}
use ability_framework.Tasks.State.{TaskState, unstarted}
use ability_framework.Tasks.Task.{
  Attempt, returned, threw, Now, TaskBase, TaskStatus, Task, atomic, Round, base, task_state,
}
use ability_framework.Tasks.Resume.{resume}
use Loop.{Swept, update_loop}

-- A registered factory; an empty std::function is `none`, a null task pointer is `returned none`.
abbrev pub TaskFactory : Type 0 → Type 0 → Type 0
TaskFactory W J = J → Attempt (Option (Task W J))

pub record TaskManager (W J : Type 0) : Type 0 where
  pub tasks : Map ℕ (Task W J)
  pub last_updated : Map ℕ ℕ
  pub active : List ℕ
  pub task_factories : Map String (TaskFactory W J)

unfoldable pub add_id : ℕ → List ℕ → List ℕ
add_id id [] = id ∷ []
add_id id (j ∷ js) = if j == id then j ∷ js else j ∷ add_id id js

module _ {W J : Type 0} where
  -- TaskManager::add
  unfoldable pub add : Now → Task W J → TaskManager W J → TaskManager W J
  unfolding add_id insert
  add now t m =
      let id = (base t).uuid in
      record m {
        tasks = insert id t m.tasks;
        last_updated = insert id now.system m.last_updated;
        active = add_id id m.active;
      }

  -- TaskManager::at
  unfoldable pub at : ℕ → TaskManager W J → Option (Task W J)
  unfolding find
  at id m = find id m.tasks

  abbrev pub state_of : TaskManager W J → ℕ → Option TaskState
  state_of m id = elim (at id m) [ none ↦ none | some t ↦ some (task_state t) ]

  abbrev pub after_sweep : TaskManager W J → Option Swept → Option (List ℕ × TaskManager W J)
  after_sweep m none = none
  after_sweep m (some swept) = some (swept.0, record m { active = swept.1 })

  -- TaskManager::update: the handles sent to, in order, and the manager; `none` does not return.
  unfoldable pub update : ℕ → TaskManager W J → Option (List ℕ × TaskManager W J)
  unfolding update_loop
  update fuel m = after_sweep m (update_loop fuel (state_of m) m.active)

  abbrev pub after_round :
      ℕ → TaskManager W J → Option (Round W J) → Option (TaskManager W J × W × List (TaskStatus J))
  after_round id m none = none
  after_round id m (some r) = some (record m { tasks = insert id r.task m.tasks }, r.world, r.sent)

  abbrev pub give_round :
      ℕ
      → Now
      → ℕ
      → TaskManager W J
      → W
      → Option (Task W J)
      → Option (TaskManager W J × W × List (TaskStatus J))
  give_round fuel now id m w none = some (m, w, [])
  give_round fuel now id m w (some t) = after_round id m (resume fuel now t w)

  -- The async_event of a handle: one round of its task.
  unfoldable pub on_async :
      ℕ → Now → ℕ → TaskManager W J → W → Option (TaskManager W J × W × List (TaskStatus J))
  unfolding at insert
  on_async fuel now id m w = give_round fuel now id m w (at id m)

  -- TaskManager::add_task_factory
  unfoldable pub add_task_factory :
      String → Option (TaskFactory W J) → TaskManager W J → Attempt (Unit {0}) × TaskManager W J
  unfolding insert
  add_task_factory task_type none m = (threw (str_append "adding empty factory for " task_type), m)
  add_task_factory task_type (some f) m =
      (returned tt, record m { task_factories = insert task_type f m.task_factories })

  -- The handler of POST /api/task behind the parse of its body: the new task's id, or the exception.
  unfoldable pub created :
      Now → String → Attempt (Option (Task W J)) → TaskManager W J → Attempt ℕ × TaskManager W J
  unfolding add
  created now task_type (returned (some t)) m = (returned (base t).uuid, add now t m)
  created now task_type (returned none) m = (
    threw (
        str_append "during creating task of type "
          (str_append task_type ", factory returned empty taskptr")),
    m,
  )
  created now task_type (threw x) m = (threw x, m)

  unfoldable pub create_task : Now → String → J → TaskManager W J → Attempt ℕ × TaskManager W J
  unfolding created find
  create_task now task_type payload m = elim (find task_type m.task_factories) [
    | none ↦ (threw (str_append "unknown task type: " task_type), m)
    | some factory ↦ created now task_type (factory payload) m
  ]

-- The messages that TaskManager::on_receive tells apart, with the parsed fields that it reads.
pub data Request (W J : Type 0) : Type 0 where
  add_task_json : String → String → TaskBase → Request W J
  make_task_json : Request W J
  add_task_raw : Option (Task W J) → Request W J
  add_task_factory_raw : Option (Option (TaskFactory W J)) → Option String → Request W J
  unknown_operation : Request W J

-- What the handler returns and how it responds to the sender, if it does.
pub data Response : Type 0 where
  silent : Response
  responds : Response
  responds_error : String → Response

module _ {W J : Type 0} (hello : W → Attempt (Unit {0}) × W) where
  -- "add_task/json": `hello` prints; a type other than the three is refused.
  unfoldable pub receive_json :
      Now → String → TaskBase → TaskManager W J → Attempt Response × TaskManager W J
  unfolding add
  receive_json now kind b m =
      if str_eq kind "atomic"
      then (returned silent, add now (atomic b hello) m)
      else if str_eq kind "sequence"
      then (returned silent, m)
      else if str_eq kind "parallel"
      then (returned silent, m)
      else (threw "Unknown task type", m)

  unfoldable pub receive_factory :
      Attempt (Unit {0}) × TaskManager W J → Attempt Response × TaskManager W J
  receive_factory (returned _, m) = (returned responds, m)
  receive_factory (threw x, m) = (returned (responds_error x), m)

  -- TaskManager::on_receive; `threw` is the error that the handler returns.
  unfoldable pub on_receive :
      Now → Request W J → TaskManager W J → Attempt Response × TaskManager W J
  unfolding receive_json receive_factory add add_task_factory
  on_receive now (add_task_json name kind b) m = receive_json now kind (record b { name = name }) m
  on_receive now make_task_json m = (returned silent, m)
  on_receive now (add_task_raw none) m = (threw "extra is not TaskPtr", m)
  on_receive now (add_task_raw (some t)) m = (returned responds, add now t m)
  on_receive now (add_task_factory_raw none task_type) m = (threw "extra is not TaskFactory", m)
  on_receive now (add_task_factory_raw (some f) none) m = (threw "need task_type in payload", m)
  on_receive now (add_task_factory_raw (some f) (some task_type)) m =
      receive_factory (add_task_factory task_type f m)
  on_receive now unknown_operation m = (threw "Unknown operation", m)
