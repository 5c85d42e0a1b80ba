-- ===== src/Tasks/Drive.antt =====
-- Rounds in a row: how a driven task ends, against what its closures answer.
use ability_framework.Prelude.{ℕ, true, false, some, List, [], ◌∷◌, ◌≡◌, refl, ◌∙◌}
use ability_framework.Tasks.State.{finished, error}
use ability_framework.Tasks.Task.{Attempt, returned, threw, Now, Task, Round, base, task_state}
use ability_framework.Tasks.Composite.{is_startable}
use ability_framework.Tasks.Resume.{resume, drive}

module _ {W J : Type 0} where
  -- How a task has ended, against what its closures answered.
  abbrev pub Ended : Attempt (Unit {0}) → Task W J → Type 0
  Ended (returned _) t = task_state t ≡ finished
  Ended (threw e) t = (task_state t ≡ error) × ((base t).exception ≡ some e)

  -- Driven at these times a task ends as specified, in the world specified.
  abbrev pub EndsAs : ℕ → List Now → Task W J → W → Attempt (Unit {0}) × W → Type 0
  EndsAs fuel times t w r = (t' : Task W J) × (drive fuel times t w ≡ some (t', r.1)) × Ended r.0 t'

  pub drive_stop :
      (fuel : ℕ) (times : List Now) (t : Task W J) (w : W)
      → is_startable (task_state t) ≡ false
      → drive fuel times t w ≡ some (t, w)
  unfolding drive
  drive_stop fuel [] t w h = refl
  drive_stop fuel (now ∷ rest) t w h = rw (h, drive)

  pub drive_step :
      (fuel : ℕ) (now : Now) (times : List Now) (t : Task W J) (w : W) (r : Round W J)
      → is_startable (task_state t) ≡ true
      → resume fuel now t w ≡ some r
      → drive fuel (now ∷ times) t w ≡ drive fuel times r.task r.world
  unfolding drive
  drive_step fuel now times t w r h e = rw (h, e, drive)

  -- One round and the rest of the drive.
  pub EndsAs-step :
      (fuel : ℕ) (now : Now) (times : List Now) (t : Task W J) (w : W) (r : Round W J)
      (s : Attempt (Unit {0}) × W)
      → is_startable (task_state t) ≡ true
      → resume fuel now t w ≡ some r
      → EndsAs fuel times r.task r.world s
      → EndsAs fuel (now ∷ times) t w s
  EndsAs-step fuel now times t w r s h e (t', d, end) =
      (t', drive_step fuel now times t w r h e ∙ d, end)

  pub EndsAs-stop :
      (fuel : ℕ) (times : List Now) (t : Task W J) (w : W) (a : Attempt (Unit {0}))
      → is_startable (task_state t) ≡ false
      → Ended a t
      → EndsAs fuel times t w (a, w)
  EndsAs-stop fuel times t w a h end = (t, drive_stop fuel times t w h, end)
