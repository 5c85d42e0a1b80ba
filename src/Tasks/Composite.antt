-- ===== src/Tasks/Composite.antt =====
-- src/taskmgr/common_tasks.cpp: the parts of `resume` of SequentialTask and ParallelTask. Each helper
-- is the code after the subtask has been resumed.
use ability_framework.Prelude.{
  ℕ, zero, suc, ◌+◌, ◌%◌, String, Bool, true, false, not, Option, none, some, List, [], ◌∷◌, ◌++◌,
  leb, ◌==◌, if◌then◌else◌, get_elem?,
}
use ability_framework.Tasks.State.{TaskState, unstarted, running, fine, finished, error, is_end}
use ability_framework.Tasks.Task.{
  Attempt, returned, threw, Now, TaskBase, TaskStatus, Task, sequential, parallel, Subs, cons,
  Round, set_state, set_error, base, size, last_result,
}
use ability_framework.Tasks.Leaf.{report}

-- What resuming one subtask leaves: all subtasks, that subtask, its state, the world, the reports.
pub record Polled (W J : Type 0) : Type 0 where
  pub subs : Subs W J
  pub sub : Task W J
  pub result : TaskState
  pub world : W
  pub sent : List (TaskStatus J)

-- `while (start != current) { if (!is_end(subs[start]->state())) return start; }`: the body does not
-- move `start`. `none` is fuel that ran out or an index out of range, `threw` the exception.
unfoldable pub search_loop : ℕ → List TaskState → ℕ → ℕ → Option (Attempt ℕ)
search_loop zero ss start current = none
search_loop (suc fuel) ss start current =
    let again = search_loop fuel ss start current in
    if start == current
    then some (threw "invalid parallel task state")
    else elim (get_elem? ss start) [
      | none ↦ none
      | some s ↦ if not (is_end s) then some (returned start) else again
    ]

-- ParallelTask::find_first_running
unfoldable pub find_first_running : ℕ → List TaskState → ℕ → ℕ → Option (Attempt ℕ)
unfolding search_loop
find_first_running fuel ss n current = elim (get_elem? ss current) [
  | none ↦ none
  | some s ↦
      if not (is_end s)
      then some (returned current)
      else search_loop fuel ss ((current + 1) % n) current
]

-- The states in which a sequence resumes its subtask.
abbrev pub is_startable : TaskState → Bool
is_startable unstarted = true
is_startable running = true
is_startable fine = true
is_startable _ = false

module _ {W J : Type 0} where
  -- The switch of SequentialTask::resume on the state of the subtask.
  unfoldable pub conclude :
      Now → TaskBase → ℕ → List (TaskStatus J) → TaskState → Polled W J → Round W J
  unfolding set_state set_error last_result
  conclude now b current out finished p =
      let b1 = set_state now b finished in
      let sent = out ++ p.sent in
      if leb (size p.subs) (suc current)
      then record {
        task = sequential b1 p.subs (suc current);
        result = finished;
        world = p.world;
        sent = sent ++ report b1 (last_result p.subs) ∷ [];
      }
      else record {
        task = sequential (set_state now b running) p.subs (suc current);
        result = running;
        world = p.world;
        sent = sent;
      }
  conclude now b current out fine p = record {
    task = sequential (set_state now b fine) p.subs current;
    result = fine;
    world = p.world;
    sent = out ++ p.sent;
  }
  conclude now b current out running p = record {
    task = sequential (set_state now b running) p.subs current;
    result = running;
    world = p.world;
    sent = out ++ p.sent;
  }
  conclude now b current out error p =
      let b1 = set_error now b (base p.sub).exception in
      record {
        task = sequential b1 p.subs current;
        result = error;
        world = p.world;
        sent = (out ++ p.sent) ++ report b1 (last_result p.subs) ∷ [];
      }
  conclude now b current out unstarted p =
      let b1 = set_state now b running in
      record {
        task = sequential b1 p.subs current;
        result = running;
        world = p.world;
        sent = (out ++ p.sent) ++ report b1 (last_result p.subs) ∷ [];
      }
  conclude now b current out s p =
      let b1 = set_state now b s in
      record {
        task = sequential b1 p.subs current;
        result = s;
        world = p.world;
        sent = (out ++ p.sent) ++ report b1 (last_result p.subs) ∷ [];
      }

  -- SequentialTask::resume when no subtask is left.
  unfoldable pub complete : Now → TaskBase → Subs W J → ℕ → List (TaskStatus J) → W → Round W J
  unfolding set_state last_result
  complete now b subs current out w =
      let b1 = set_state now b finished in
      record {
        task = sequential b1 subs current;
        result = finished;
        world = w;
        sent = out ++ report b1 (last_result subs) ∷ [];
      }

  -- The rest of ParallelTask::resume after the subtask `current` was resumed.
  unfoldable pub join :
      Now → TaskBase → ℕ → ℕ → List (TaskStatus J) → TaskState → Polled W J → Round W J
  unfolding set_state set_error
  join now b done current out error p =
      let b1 = set_error now b (base p.sub).exception in
      record {
        task = parallel b1 p.subs done current;
        result = error;
        world = p.world;
        sent = (out ++ p.sent) ++ report b1 none ∷ [];
      }
  join now b done current out finished p =
      let b1 = set_state now b finished in
      if leb (size p.subs) (suc done)
      then record {
        task = parallel b1 p.subs (suc done) current;
        result = finished;
        world = p.world;
        sent = (out ++ p.sent) ++ report b1 none ∷ [];
      }
      else record {
        task = parallel (set_state now b running) p.subs (suc done) ((current + 1) % size p.subs);
        result = running;
        world = p.world;
        sent = out ++ p.sent;
      }
  join now b done current out s p = record {
    task = parallel (set_state now b running) p.subs done ((current + 1) % size p.subs);
    result = running;
    world = p.world;
    sent = out ++ p.sent;
  }

  -- ParallelTask::resume when find_first_running throws.
  unfoldable pub fail_parallel :
      Now → TaskBase → Subs W J → ℕ → ℕ → List (TaskStatus J) → String → W → Round W J
  unfolding set_error
  fail_parallel now b subs done current out x w =
      let b1 = set_error now b (some x) in
      record {
        task = parallel b1 subs done current;
        result = error;
        world = w;
        sent = out ++ report b1 none ∷ [];
      }

  unfoldable pub idle_parallel :
      Now → TaskBase → Subs W J → ℕ → ℕ → List (TaskStatus J) → W → Round W J
  unfolding set_state
  idle_parallel now b subs done current out w = record {
    task = parallel (set_state now b finished) subs done current;
    result = finished;
    world = w;
    sent = out;
  }

  abbrev pub first_polled : Round W J → Subs W J → Polled W J
  first_polled r ts = record {
    subs = cons r.task ts;
    sub = r.task;
    result = r.result;
    world = r.world;
    sent = r.sent;
  }

  abbrev pub later_polled : Task W J → Polled W J → Polled W J
  later_polled t p = record p { subs = cons t p.subs }
