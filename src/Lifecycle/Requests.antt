-- ===== src/Lifecycle/Requests.antt =====
-- The requests on an ability's lifecycle: src/lifecyclemgr/lifecycle_request.cpp and the tasks that
-- src/lifecyclemgr/lifecycle_mgr.cpp makes of them. The closures of a task act on the heartbeats and on
-- the world outside, X. The other managers' answers are parameters.
use Prim.Native.String.{◌++◌ as str_append}
use text.Mathlib.Text.{◌==◌ as str_eq}
use ability_framework.Prelude.{
  ℕ, ◌+◌, String, Bool, true, false, Option, none, some, if◌then◌else◌, find, uuid_key, is_some,
}
use ability_framework.Tasks.State.{unstarted}
use ability_framework.Tasks.Task.{
  Attempt, returned, threw, TaskBase, Task, atomic, sequential, wait_once, thread_queue, nil, cons,
}
use ability_framework.Lifecycle.Heartbeat.{
  LifecycleState, standby, running, suspend, terminated, same_state,
}
use ability_framework.Lifecycle.Client.{
  HttpClient, Expected, value, unexpected, is_legal, Posted, execute,
}
use ability_framework.Lifecycle.Manager.{Entry, Heartbeats, contains_active}

pub record LifecycleRequest : Type 0 where
  pub ability_instance_id : ℕ
  pub command : String

-- from_json, with the two fields read: the command is tested in lower case and kept as it came.
unfoldable pub request_from_json : (String → String) → String → ℕ → Attempt LifecycleRequest
request_from_json to_lower command id =
    if is_legal (to_lower command)
    then returned (record { ability_instance_id = id; command = command })
    else threw (str_append "invalid command: " (to_lower command))

-- desired_state
unfoldable pub desired_state : String → Attempt LifecycleState
desired_state command =
    if str_eq command "start"
    then returned standby
    else if str_eq command "connect"
    then returned running
    else if str_eq command "disconnect"
    then returned suspend
    else if str_eq command "terminate"
    then returned terminated
    else threw (str_append "unknown comand: " command)

pub record World (X : Type 0) : Type 0 where
  pub heartbeats : Heartbeats
  pub outside : X

-- A task that has not run.
abbrev pub new_base : ℕ → String → TaskBase
new_base uuid name = record {
  uuid = uuid;
  name = name;
  state = unstarted;
  exception = none;
  start_time = 0;
  end_time = 0;
}

-- The answer to a message to the SubprocessMgr: none, or a success or failure with a text.
pub data Answered : Type 0 where
  unsent : String → Answered
  answered : Bool → String → Answered

abbrev pub start_outcome : Answered → Attempt (Unit {0})
start_outcome (unsent e) = threw (str_append "send msg to subprocessmgr failed: " e)
start_outcome (answered true text) = returned tt
start_outcome (answered false text) = threw (str_append "start process failed" text)

abbrev pub state_is : LifecycleState → Option Entry → Bool
state_is desired none = false
state_is desired (some e) = same_state e.heartbeat.state desired

abbrev pub prefix_by : {A : Type 0} → String → Expected A → Expected A
prefix_by p (value a) = value a
prefix_by p (unexpected e) = unexpected (str_append p e)

-- 15s, in milliseconds
abbrev pub wait_timeout : ℕ
wait_timeout = 15000

abbrev pub send_outcome : Expected (Unit {0}) → Attempt (Unit {0})
send_outcome (value u) = returned tt
send_outcome (unexpected e) = threw (str_append "error reading from ability http server: " e)

abbrev pub client_of : Option Entry → Option HttpClient
client_of none = none
client_of (some e) = e.client

module _ {X : Type 0} (J : Type 0) (uuid_to_string : ℕ → String)
    (start_process : ℕ → X → Answered × X) (post : String → ℕ → String → X → Posted × X) where
  abbrev pub on_timeout : ℕ → World X → Attempt String × World X
  on_timeout id w = (
    returned (str_append "wait ability " (str_append (uuid_to_string id) "heartbeat timeout ")),
    w,
  )

  abbrev pub heartbeat_arrived : ℕ → World X → Attempt Bool × World X
  heartbeat_arrived id w = (returned (is_some (find id w.heartbeats)), w)

  abbrev pub state_reached : ℕ → LifecycleState → World X → Attempt Bool × World X
  state_reached id desired w = (returned (state_is desired (find id w.heartbeats)), w)

  -- task_wait_for_heartbeat
  unfoldable pub task_wait_for_heartbeat : ℕ → ℕ → ℕ → Task (World X) J
  task_wait_for_heartbeat uuid now id =
      wait_once (new_base uuid "wait-task-state") (heartbeat_arrived id) (some (on_timeout id))
        (now + wait_timeout)

  -- task_wait_for_lifecycle_state
  unfoldable pub task_wait_for_lifecycle_state : ℕ → ℕ → ℕ → LifecycleState → Task (World X) J
  task_wait_for_lifecycle_state uuid now id desired =
      wait_once (new_base uuid "wait-task-state") (state_reached id desired) (some (on_timeout id))
        (now + wait_timeout)

  abbrev pub start_closure : ℕ → World X → Attempt (Unit {0}) × World X
  start_closure id w =
      let (answer, x) = start_process id w.outside in
      (start_outcome answer, record w { outside = x })

  -- The call through the client; a null client is a null pointer that is followed.
  abbrev pub send_closure : HttpClient → String → World X → Attempt (Unit {0}) × World X
  send_closure client command w =
      let (result, x) = execute post client command w.outside in
      (send_outcome result, record w { outside = x })

  -- The sequence of two tasks that every request makes, with the uuids of the three tasks from `uuid`.
  abbrev pub two_steps : ℕ → Task (World X) J → Task (World X) J → Task (World X) J
  two_steps uuid a b = sequential (new_base (uuid + 2) "lifecycle-adjust") (cons a (cons b nil)) 0

  -- make_start_ability_request; `found` and `storage` are what the ResourceMgr answers, as errors.
  unfoldable pub make_start_ability_request :
      ℕ
      → ℕ
      → LifecycleRequest
      → Option String
      → Option String
      → Heartbeats
      → Expected (Task (World X) J)
  unfolding task_wait_for_heartbeat
  make_start_ability_request uuid now q found storage hs =
      let id = q.ability_instance_id in
      if contains_active id hs
      then unexpected (str_append "ability " (str_append (uuid_to_string id) " is already active"))
      else elim found [
        | some e ↦ unexpected e
        | none ↦ elim storage [
          | some e ↦ unexpected e
          | none ↦ value (
              two_steps uuid (atomic (new_base uuid "start-process") (start_closure id))
                (task_wait_for_heartbeat (uuid + 1) now id))
        ]
      ]

  -- `none` stands for a task that follows a null client: it crashes when it runs.
  abbrev pub adjust_steps :
      ℕ
      → ℕ
      → LifecycleRequest
      → Option HttpClient
      → Attempt LifecycleState
      → Option (Attempt (Expected (Task (World X) J)))
  adjust_steps uuid now q client (threw e) = some (threw e)
  adjust_steps uuid now q none (returned desired) = none
  adjust_steps uuid now q (some client) (returned desired) = some (
      returned (
        value (
          two_steps uuid
            (thread_queue (new_base uuid "send-lifecycle-operation") (send_closure client q.command)
              false)
            (task_wait_for_lifecycle_state (uuid + 1) now q.ability_instance_id desired))))

  -- make_lifecycle_adjust_request
  unfoldable pub make_lifecycle_adjust_request :
      ℕ → ℕ → LifecycleRequest → Heartbeats → Option (Attempt (Expected (Task (World X) J)))
  unfolding desired_state task_wait_for_lifecycle_state
  make_lifecycle_adjust_request uuid now q hs =
      let id = q.ability_instance_id in
      if contains_active id hs
      then adjust_steps uuid now q (client_of (find id hs)) (desired_state q.command)
      else some (returned (unexpected (str_append "no such ability of id " (uuid_to_string id))))

  -- The answer of on_lifecycle_request before its task is submitted.
  abbrev pub start_answer :
      Expected (Task (World X) J) → Option (Attempt (Expected (Task (World X) J)))
  start_answer r = some (returned (prefix_by "make start task failed: " r))

  abbrev pub adjust_answer :
      Option (Attempt (Expected (Task (World X) J)))
      → Option (Attempt (Expected (Task (World X) J)))
  adjust_answer none = none
  adjust_answer (some (threw e)) = some (threw e)
  adjust_answer (some (returned r)) = some (returned (prefix_by "make adjust task failed: " r))

  -- on_lifecycle_request up to submit_task.
  unfoldable pub on_lifecycle_request :
      ℕ
      → ℕ
      → LifecycleRequest
      → Option String
      → Option String
      → Heartbeats
      → Option (Attempt (Expected (Task (World X) J)))
  unfolding make_start_ability_request make_lifecycle_adjust_request
  on_lifecycle_request uuid now q found storage hs =
      if str_eq q.command "start"
      then start_answer (make_start_ability_request uuid now q found storage hs)
      else adjust_answer (make_lifecycle_adjust_request uuid now q hs)
