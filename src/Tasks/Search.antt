-- ===== src/Tasks/Search.antt =====
-- ParallelTask::find_first_running: the search for a subtask that still runs may never return.
use ability_framework.Prelude.{
  ℕ, zero, suc, ◌+◌, ◌%◌, ◌<◌, true, false, none, some, List, ◌≡◌, refl, ◌≢◌, arith, leb, get_elem?,
}
use ability_framework.Tasks.State.{TaskState, is_end}
use ability_framework.Tasks.Task.{Now, TaskBase, parallel, Subs, size, states}
use ability_framework.Tasks.Composite.{find_first_running, search_loop}
use ability_framework.Tasks.Resume.{resume, resume-parallel}

-- The loop does not move its index: from an ended subtask that is not `current` it never leaves.
search_loop_hangs :
    (fuel : ℕ) (ss : List TaskState) (start current : ℕ) (s : TaskState)
    → start ≢ current
    → get_elem? ss start ≡ some s
    → is_end s ≡ true
    → search_loop fuel ss start current ≡ none
unfolding search_loop
search_loop_hangs zero ss start current s ne at ended = refl
search_loop_hangs (suc fuel) ss start current s ne at ended =
    rw at (rw ended (ground (arith, search_loop_hangs fuel ss start current s ne at ended)))

find_first_running_hangs :
    (fuel n current : ℕ) (ss : List TaskState) (s s' : TaskState)
    → get_elem? ss current ≡ some s
    → is_end s ≡ true
    → get_elem? ss ((current + 1) % n) ≡ some s'
    → is_end s' ≡ true
    → (current + 1) % n ≢ current
    → find_first_running fuel ss n current ≡ none
unfolding find_first_running
find_first_running_hangs fuel n current ss s s' at ended at' ended' ne =
    rw (at, find_first_running) (rw ended (search_loop_hangs fuel ss _ current s' ne at' ended'))

leb_lt : (m n : ℕ) → m < n → leb n m ≡ false
leb_lt m n h = ground arith

module _ {W J : Type 0} (fuel : ℕ) (now : Now) where
  -- If the subtask that is next in turn has ended, and the one behind it (another one) has ended too,
  -- then `resume` of an unfinished parallel task returns for no fuel: the search for a subtask that
  -- still runs loops forever, whatever the other subtasks could do.
  pub parallel_hangs :
      (b : TaskBase) (subs : Subs W J) (done current : ℕ) (s s' : TaskState) (w : W)
      → done < size subs
      → get_elem? (states subs) current ≡ some s
      → is_end s ≡ true
      → get_elem? (states subs) ((current + 1) % size subs) ≡ some s'
      → is_end s' ≡ true
      → (current + 1) % size subs ≢ current
      → resume fuel now (parallel b subs done current) w ≡ none
  parallel_hangs b subs done current s s' w unfinished at ended at' ended' ne =
      rw (resume-parallel fuel now b subs done current w) (
        rw (
          leb_lt done (size subs) unfinished,
          find_first_running_hangs fuel (size subs) current (states subs) s s' at ended at' ended'
              ne,
        ))
