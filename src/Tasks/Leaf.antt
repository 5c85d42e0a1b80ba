-- ===== src/Tasks/Leaf.antt =====
-- src/taskmgr/common_tasks.cpp: the parts of `resume` of the tasks without subtasks. Each helper is
-- the code after a closure has answered; the reports sent so far are handed on.
use ability_framework.Prelude.{
  ℕ, ◌+◌, String, Bool, true, false, Option, none, some, List, [], ◌∷◌, ◌++◌, leb, ◌==◌,
  if◌then◌else◌,
}
use ability_framework.Tasks.State.{TaskState, unstarted, running, finished, error}
use ability_framework.Tasks.Task.{
  Attempt, returned, threw, Now, TaskBase, TaskStatus, atomic, value_atomic, wait_once, delay,
  thread_queue, Round, set_state, set_error, message_of,
}

module _ {J : Type 0} where
  -- record_task_status
  abbrev pub report : TaskBase → Option J → TaskStatus J
  report b payload = record {
    id = b.uuid;
    state = b.state;
    start_time = b.start_time;
    end_time = b.end_time;
    timeout = 3600;
    payload = payload;
    message = message_of b.exception;
  }

  -- record_start_time_if_first_try
  unfoldable pub begin : Now → TaskBase → Option J → TaskBase × List (TaskStatus J)
  unfolding set_state
  begin now b payload =
      let b1 = set_state now (record b { start_time = now.system }) running in
      if b.start_time == 0 then (b1, report b1 payload ∷ []) else (b, [])

-- The text of an answer, or of what was thrown instead.
abbrev pub text_of : Attempt String → String
text_of (returned s) = s
text_of (threw x) = x

abbrev pub due_time : Now → ℕ → Option ℕ → ℕ
due_time now d none = now.steady + d
due_time now d (some x) = x

abbrev pub stamp : Now → TaskBase → TaskBase
stamp now b = if b.start_time == 0 then record b { start_time = now.system } else b

module _ {W J : Type 0} where
  unfoldable pub finish_atomic :
      Now
      → TaskBase
      → (W → Attempt (Unit {0}) × W)
      → List (TaskStatus J)
      → Attempt (Unit {0}) × W
      → Round W J
  unfolding set_state set_error
  finish_atomic now b f out (returned _, w) =
      let b' = set_state now b finished in
      record { task = atomic b' f; result = finished; world = w; sent = out ++ report b' none ∷ [] }
  finish_atomic now b f out (threw e, w) =
      let b' = set_error now b (some e) in
      record { task = atomic b' f; result = error; world = w; sent = out ++ report b' none ∷ [] }

  unfoldable pub finish_value :
      Now
      → TaskBase
      → (W → Attempt J × W)
      → Option J
      → List (TaskStatus J)
      → Attempt J × W
      → Round W J
  unfolding set_state set_error
  finish_value now b f r out (returned j, w) =
      let b' = set_state now b finished in
      record {
        task = value_atomic b' f (some j);
        result = finished;
        world = w;
        sent = out ++ report b' (some j) ∷ [];
      }
  finish_value now b f r out (threw e, w) =
      let b' = set_error now b (some e) in
      record {
        task = value_atomic b' f r;
        result = error;
        world = w;
        sent = out ++ report b' r ∷ [];
      }

  -- The rest of WaitOnceTask::resume after an error.
  unfoldable pub fail_wait :
      Now
      → TaskBase
      → (W → Attempt Bool × W)
      → Option (W → Attempt String × W)
      → ℕ
      → List (TaskStatus J)
      → String
      → W
      → Round W J
  unfolding set_error
  fail_wait now b p t e out x w =
      let b' = set_error now b (some x) in
      record {
        task = wait_once b' p t e;
        result = error;
        world = w;
        sent = out ++ report b' none ∷ [];
      }

  unfoldable pub expire_wait :
      Now
      → TaskBase
      → (W → Attempt Bool × W)
      → Option (W → Attempt String × W)
      → ℕ
      → List (TaskStatus J)
      → W
      → Round W J
  unfolding fail_wait
  expire_wait now b p none e out w = fail_wait now b p none e out "timeout" w
  expire_wait now b p (some g) e out w =
      let (r, w') = g w in fail_wait now b p (some g) e out (text_of r) w'

  unfoldable pub answer_wait :
      Now
      → TaskBase
      → (W → Attempt Bool × W)
      → Option (W → Attempt String × W)
      → ℕ
      → List (TaskStatus J)
      → Attempt Bool × W
      → Round W J
  unfolding set_state fail_wait
  answer_wait now b p t e out (returned true, w) =
      let b' = set_state now b finished in
      record {
        task = wait_once b' p t e;
        result = finished;
        world = w;
        sent = out ++ report b' none ∷ [];
      }
  answer_wait now b p t e out (returned false, w) = record {
    task = wait_once (set_state now b running) p t e;
    result = running;
    world = w;
    sent = out;
  }
  answer_wait now b p t e out (threw x, w) = fail_wait now b p t e out x w

  -- DelayTask::resume; its base is left alone until the delay has passed.
  unfoldable pub resume_delay : Now → TaskBase → ℕ → Option ℕ → W → Round W J
  unfolding set_state
  resume_delay now b d finish_time w =
      let due = due_time now d finish_time in
      let b' = set_state now b finished in
      if leb due now.steady
      then record {
        task = delay b' d (some due);
        result = finished;
        world = w;
        sent = report b' none ∷ [];
      }
      else record { task = delay b d (some due); result = running; world = w; sent = [] }

  -- The rest of ThreadQueueWorkTask::resume, by the state it finds.
  unfoldable pub queue_work :
      Now → TaskBase → (W → Attempt (Unit {0}) × W) → Bool → TaskState → W → Round W J
  unfolding set_state
  queue_work now b f queued unstarted w =
      let b' = set_state now b running in
      record {
        task = thread_queue b' f true;
        result = elim b'.exception [ none ↦ running | some e ↦ error ];
        world = w;
        sent = report b' none ∷ [];
      }
  queue_work now b f queued s w = record {
    task = thread_queue b f queued;
    result = elim b.exception [ none ↦ s | some e ↦ error ];
    world = w;
    sent = [];
  }
