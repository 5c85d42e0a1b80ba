-- ===== src/Tasks/State.antt =====
-- include/taskmgr/task.hpp and src/taskmgr/task.cpp: the states of a task and their names;
-- include/taskmgr/task_status.hpp and src/taskmgr/task_status.cpp: the kinds of executors.
use text.Mathlib.Text.{◌==◌ as str_eq}
use ability_framework.Prelude.{String, Bool, true, false, Option, none, some, if◌then◌else◌}

pub data TaskState : Type 0 where
  unstarted running pending fine finished error cancelled : TaskState

-- is_end
abbrev pub is_end : TaskState → Bool
is_end finished = true
is_end error = true
is_end cancelled = true
is_end _ = false

-- to_string
unfoldable pub state_to_string : TaskState → String
state_to_string unstarted = "unstarted"
state_to_string running = "running"
state_to_string pending = "pending"
state_to_string fine = "fine"
state_to_string finished = "finished"
state_to_string error = "error"
state_to_string cancelled = "cancelled"

-- task_state_from_string; `none` is the exception std::invalid_argument.
unfoldable pub task_state_from_string : String → Option TaskState
task_state_from_string sv =
    if str_eq sv "unstarted"
    then some unstarted
    else if str_eq sv "running"
    then some running
    else if str_eq sv "pending"
    then some pending
    else if str_eq sv "fine"
    then some fine
    else if str_eq sv "finished"
    then some finished
    else if str_eq sv "error"
    then some error
    else if str_eq sv "cancelled"
    then some cancelled
    else none

pub data ExecutorType : Type 0 where
  unknown ability controller framework : ExecutorType

unfoldable pub executor_to_string : ExecutorType → String
executor_to_string ability = "ability"
executor_to_string controller = "controller"
executor_to_string framework = "framework"
executor_to_string unknown = "unknown"

-- executor_type_from_string: every other name is `unknown`.
unfoldable pub executor_type_from_string : String → ExecutorType
executor_type_from_string sv =
    if str_eq sv "ability"
    then ability
    else if str_eq sv "controller"
    then controller
    else if str_eq sv "framework"
    then framework
    else unknown
