-- ===== src/Tasks/Names.antt =====
-- The names of states and executors: src/taskmgr/task.cpp and src/taskmgr/task_status.cpp.
use ability_framework.Prelude.{some, ◌≡◌, refl}
use ability_framework.Tasks.State.{
  TaskState, unstarted, running, pending, fine, finished, error, cancelled, state_to_string,
  task_state_from_string, ExecutorType, unknown, ability, controller, framework, executor_to_string,
  executor_type_from_string,
}

-- Reading back the name of any task state and of any kind of executor gives what was named.
pub names_round_trip :
    (s : TaskState) (e : ExecutorType)
    → (task_state_from_string (state_to_string s) ≡ some s)
      × (executor_type_from_string (executor_to_string e) ≡ e)
unfolding state_to_string task_state_from_string executor_to_string executor_type_from_string
names_round_trip s e = (of_state s, of_executor e)
  where
    of_state : (s : TaskState) → task_state_from_string (state_to_string s) ≡ some s
    of_state unstarted = refl
    of_state running = refl
    of_state pending = refl
    of_state fine = refl
    of_state finished = refl
    of_state error = refl
    of_state cancelled = refl

    of_executor : (e : ExecutorType) → executor_type_from_string (executor_to_string e) ≡ e
    of_executor unknown = refl
    of_executor ability = refl
    of_executor controller = refl
    of_executor framework = refl
