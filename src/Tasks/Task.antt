-- ===== src/Tasks/Task.antt =====
-- src/taskmgr/common_tasks.cpp and include/taskmgr/task.hpp: the built-in tasks and `resume`.
-- `W` is the world that the closures of a task act on, `J` the JSON documents they return. A closure
-- returns or throws. One reading of the clocks serves a whole call of `resume`. Parallel tasks
-- search with fuel, and `none` is a call that does not return (Tasks/Parallel.antt).
use ability_framework.Prelude.{
  ℕ, suc, String, Bool, Option, none, some, List, [], ◌∷◌, if◌then◌else◌,
}
use ability_framework.Tasks.State.{TaskState, error, is_end}

pub data Attempt {ℓ} (A : Type ℓ) : Type ℓ where
  returned : A → Attempt A
  threw : String → Attempt A

-- Readings of std::chrono::system_clock and of steady_clock.
pub record Now : Type 0 where
  pub system : ℕ
  pub steady : ℕ

-- The fields of TaskBase. A time point equal to the epoch, 0, is one that was never set.
pub record TaskBase : Type 0 where
  pub uuid : ℕ
  pub name : String
  pub state : TaskState
  pub exception : Option String
  pub start_time : ℕ
  pub end_time : ℕ

-- What record_task_status sends to the TaskStatusMgr; `timeout` is in seconds.
pub record TaskStatus (J : Type 0) : Type 0 where
  pub id : ℕ
  pub state : TaskState
  pub start_time : ℕ
  pub end_time : ℕ
  pub timeout : ℕ
  pub payload : Option J
  pub message : String

mutual
  pub data Task (W J : Type 0) : Type 0 where
    atomic : TaskBase → (W → Attempt (Unit {0}) × W) → Task W J
    value_atomic : TaskBase → (W → Attempt J × W) → Option J → Task W J
    sequential : TaskBase → Subs W J → ℕ → Task W J
    wait_once : TaskBase → (W → Attempt Bool × W) → Option (W → Attempt String × W) → ℕ → Task W J
    delay : TaskBase → ℕ → Option ℕ → Task W J
    thread_queue : TaskBase → (W → Attempt (Unit {0}) × W) → Bool → Task W J
    parallel : TaskBase → Subs W J → ℕ → ℕ → Task W J

  pub data Subs (W J : Type 0) : Type 0 where
    nil : Subs W J
    cons : Task W J → Subs W J → Subs W J

-- What one call of `resume` leaves: the task, the state it returns, the world, the reports sent.
pub record Round (W J : Type 0) : Type 0 where
  pub task : Task W J
  pub result : TaskState
  pub world : W
  pub sent : List (TaskStatus J)

-- TaskBase::set_state
unfoldable pub set_state : Now → TaskBase → TaskState → TaskBase
set_state now b s = record b { state = s; end_time = if is_end s then now.system else b.end_time }

-- TaskBase::set_error
unfoldable pub set_error : Now → TaskBase → Option String → TaskBase
set_error now b e = record b { exception = e; state = error; end_time = now.system }

-- TaskBase::message
unfoldable pub message_of : Option String → String
message_of none = ""
message_of (some e) = e

module _ {W J : Type 0} where
  abbrev pub base : Task W J → TaskBase
  base (atomic b f) = b
  base (value_atomic b f r) = b
  base (sequential b subs c) = b
  base (wait_once b p t e) = b
  base (delay b d f) = b
  base (thread_queue b f q) = b
  base (parallel b subs f c) = b

  abbrev pub task_state : Task W J → TaskState
  task_state t = (base t).state

  abbrev pub size : Subs W J → ℕ
  size nil = 0
  size (cons t ts) = suc (size ts)

  abbrev pub states : Subs W J → List TaskState
  states nil = []
  states (cons t ts) = task_state t ∷ states ts

  -- result(): of a sequence that of its last task.
  unfoldable mutual
    pub result_of : Task W J → Option J
    result_of (atomic b f) = none
    result_of (value_atomic b f r) = r
    result_of (sequential b subs c) = last_result subs
    result_of (wait_once b p t e) = none
    result_of (delay b d f) = none
    result_of (thread_queue b f q) = none
    result_of (parallel b subs f c) = none

    pub last_result : Subs W J → Option J
    last_result nil = none
    last_result (cons t nil) = result_of t
    last_result (cons t (cons u us)) = last_result (cons u us)
