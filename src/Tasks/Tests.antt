-- ===== src/Tasks/Tests.antt =====
-- Tasks with counters as the world, and the theorems at them.
use ability_framework.Prelude.{ℕ, suc, Bool, none, some, List, [], ◌∷◌, ◌≡◌, refl, arith, ◌==◌}
use ability_framework.Tasks.State.{TaskState, unstarted, running, pending, finished}
use ability_framework.Tasks.Task.{
  Attempt, returned, threw, Now, TaskBase, Task, atomic, sequential, parallel, wait_once, Subs, nil,
  cons,
}
use ability_framework.Tasks.Resume.{resume}
use ability_framework.Tasks.Atoms.{Atom, atoms}
use ability_framework.Tasks.Drive.{EndsAs}
use ability_framework.Tasks.Sequence.{sequence_refines}
use ability_framework.Tasks.Parallel.{parallel_refines}
use ability_framework.Tasks.Search.{parallel_hangs}
use ability_framework.Tasks.Waiting.{wait_once_ends, Finishes}
use ability_framework.Tasks.Manager.{TaskManager, add, at, on_receive, add_task_raw}
use ability_framework.Tasks.Manager.Invariant.{
  IsWhole, Reach, here, next, added, received, Reach-IsWhole,
}

abbrev new_base : ℕ → TaskBase
new_base id = record {
  uuid = id;
  name = "test";
  state = unstarted;
  exception = none;
  start_time = 0;
  end_time = 0;
}

abbrev ended_base : TaskBase
ended_base = record (new_base 7) { state = finished }

abbrev count_up : ℕ → Attempt (Unit {0}) × ℕ
count_up w = (returned tt, suc w)

abbrev give_up : ℕ → Attempt (Unit {0}) × ℕ
give_up w = (threw "given up", w)

-- Two counts, a failure, and a count that is not reached.
abbrev four : List (Atom ℕ)
four =
    (new_base 1, count_up)
    ∷ (new_base 2, count_up)
    ∷ (new_base 3, give_up)
    ∷ (new_base 4, count_up)
    ∷ []

abbrev clock : ℕ → Now
clock t = record { system = t; steady = t }

abbrev four_rounds : List Now
four_rounds = clock 1 ∷ clock 2 ∷ clock 3 ∷ clock 4 ∷ []

sequence_refines_example :
    EndsAs {J = ℕ} 9 four_rounds (sequential (new_base 0) (atoms four) 0) 5 (threw "given up", 7)
sequence_refines_example =
    sequence_refines 9 four_rounds (new_base 0) four 5 refl (refl, (refl, (refl, (refl, tt))))
      (omega arith) (omega arith)

parallel_refines_example :
    EndsAs {J = ℕ} 9 four_rounds (parallel (new_base 0) (atoms four) 0 0) 5 (threw "given up", 7)
parallel_refines_example =
    parallel_refines 9 four_rounds (new_base 0) four 5 refl (refl, (refl, (refl, (refl, tt))))
      (omega arith) (omega arith)

-- Two subtasks have ended, the third has not.
abbrev two_ended : Subs ℕ ℕ
two_ended =
    cons (atomic ended_base count_up)
      (cons (atomic ended_base count_up) (cons (atomic (new_base 3) count_up) nil))

parallel_hangs_example : resume 100 (clock 1) (parallel (new_base 0) two_ended 2 0) 5 ≡ none
parallel_hangs_example =
    parallel_hangs 100 (clock 1) (new_base 0) two_ended 2 0 finished finished 5 (omega arith) refl
      refl refl refl (omega arith)

abbrev is_three : ℕ → Attempt Bool × ℕ
is_three w = (returned (w == 3), suc w)

wait_once_ends_example :
    Finishes {J = ℕ} 9
      (clock 1 ∷ clock 2 ∷ clock 11 ∷ [])
      (wait_once (new_base 0) is_three none 10)
      5
wait_once_ends_example =
    wait_once_ends 9 (clock 1 ∷ clock 2 ∷ []) (clock 11) (new_base 0) is_three none 10 5 refl
      (omega arith)

abbrev with_state : ℕ → TaskState → Task ℕ ℕ
with_state id s = atomic (record (new_base id) { state = s }) count_up

abbrev managing : List (ℕ × Task ℕ ℕ) → TaskManager ℕ ℕ
managing ts = record { tasks = ts; last_updated = []; active = 1 ∷ 2 ∷ []; task_factories = [] }

abbrev one_done : TaskManager ℕ ℕ
one_done = managing ((1, with_state 1 finished) ∷ (2, with_state 2 running) ∷ [])

abbrev one_waits : TaskManager ℕ ℕ
one_waits = managing ((1, with_state 1 running) ∷ (2, with_state 2 pending) ∷ [])

-- A task is added, and then one by a message.
abbrev two_added : TaskManager ℕ ℕ
two_added =
    (on_receive count_up (clock 4) (add_task_raw (some (with_state 4 unstarted)))
      (add (clock 3) (with_state 3 unstarted) one_done)).1

two_added-Reach : Reach count_up one_done two_added
two_added-Reach =
    next (next here (added (clock 3) (with_state 3 unstarted)))
      (received (clock 4) (add_task_raw (some (with_state 4 unstarted))))

Reach-IsWhole_example : IsWhole two_added
unfolding at
Reach-IsWhole_example =
    Reach-IsWhole ((with_state 1 finished, refl), ((with_state 2 running, refl), tt))
      two_added-Reach
