-- ===== src/Tasks/Manager/Laws.antt =====
-- Properties of the task manager's operations.
use ability_framework.Prelude.{
  ℕ, ◌<◌, none, some, List, ◌∷◌, ◌++◌, ◌≡◌, length, All, ◌==◌, if◌then◌else◌, find-insert, uuid_key,
}
use ability_framework.Tasks.State.{pending}
use ability_framework.Tasks.Task.{Now, Task, base}
use ability_framework.Tasks.Manager.Loop.{live, IsReady, update_loop-live, update_loop_hangs}
use ability_framework.Tasks.Manager.{TaskManager, add, at, state_of, update}

module _ {W J : Type 0} where
  -- If every active task stands in the map of tasks and none is `pending`, then with fuel for one pass
  -- `update` returns: it sends to exactly the handles whose task is to be resumed, in order, keeps
  -- those handles, removes the others (their tasks have ended), and changes nothing else.
  update-live :
      (fuel : ℕ) (m : TaskManager W J)
      → All (IsReady (state_of m)) m.active
      → length m.active < fuel
      → update fuel m
        ≡ some (live (state_of m) m.active, record m { active = live (state_of m) m.active })
  unfolding update
  update-live fuel m ready enough =
      rw (update_loop-live (state_of m) fuel m.active ready enough, update)

  -- If an active task is `pending`, `update` returns for no fuel: its loop stays at that handle.
  update_hangs :
      (fuel id : ℕ) (before after : List ℕ) (m : TaskManager W J)
      → m.active ≡ before ++ id ∷ after
      → state_of m id ≡ some pending
      → update fuel m ≡ none
  unfolding update at
  update_hangs fuel id before after m e waits =
      rw (e, update) (rw (update_loop_hangs (state_of m) fuel id before after waits))

  -- After `add` the task is found under its uuid, and every other uuid finds what it found before.
  pub at-add :
      (now : Now) (t : Task W J) (m : TaskManager W J) (j : ℕ)
      → at j (add now t m) ≡ (if (base t).uuid == j then some t else at j m)
  unfolding at add
  at-add now t m j = find-insert (base t).uuid j t m.tasks
