-- ===== src/Tasks/Waiting.antt =====
-- WaitOnceTask: its deadline and its answers.
use ability_framework.Prelude.{
  ℕ, ◌<◌, String, Bool, true, false, Option, none, some, List, [], ◌∷◌, ◌++◌, ◌≡◌, refl, arith, ltb,
  if◌then◌else◌, ◌∙◌, ◌⊎◌, inl, inr, ap,
}
use ability_framework.Tasks.State.{TaskState, running, finished, error, is_end}
use ability_framework.Tasks.Task.{
  Attempt, returned, threw, Now, TaskBase, Task, wait_once, Round, base, task_state, set_state,
  set_error,
}
use ability_framework.Tasks.Leaf.{begin, expire_wait, answer_wait, text_of}
use ability_framework.Tasks.Composite.{is_startable}
use ability_framework.Tasks.Resume.{resume, drive}
use ability_framework.Tasks.Drive.{drive_stop, drive_step}

module _ {W : Type 0} where
  -- What a round of a waiting task should give: the state, the error, and the world. After the deadline
  -- the condition is not asked; before it, its answer decides.
  abbrev pub expired_outcome : Option (W → Attempt String × W) → W → TaskState × Option String × W
  expired_outcome none w = (error, some "timeout", w)
  expired_outcome (some g) w = (error, some (text_of (g w).0), (g w).1)

  abbrev pub answered_outcome : Option String → Attempt Bool × W → TaskState × Option String × W
  answered_outcome before (returned true, w) = (finished, before, w)
  answered_outcome before (returned false, w) = (running, before, w)
  answered_outcome before (threw x, w) = (error, some x, w)

  abbrev pub wait_outcome :
      Now
      → Option String
      → (W → Attempt Bool × W)
      → Option (W → Attempt String × W)
      → ℕ
      → W
      → TaskState × Option String × W
  wait_outcome now before p t e w =
      if ltb e now.steady then expired_outcome t w else answered_outcome before (p w)

exception-begin :
    (J : Type 0) (now : Now) (b : TaskBase) → (begin {J = J} now b none).0.exception ≡ b.exception
unfolding begin set_state
exception-begin J now b = ground arith

module _ {W J : Type 0} where
  -- The state a round returns, the error it leaves in the task, and the world.
  abbrev pub outcome_of : Round W J → TaskState × Option String × W
  outcome_of r = (r.result, (base r.task).exception, r.world)

  expire-outcome :
      (now : Now) (b : TaskBase) (p : W → Attempt Bool × W) (t : Option (W → Attempt String × W))
      (e : ℕ) (out : _) (w : W)
      → outcome_of (expire_wait {J = J} now b p t e out w) ≡ expired_outcome t w
  unfolding expire_wait set_error
  expire-outcome now b p none e out w = refl
  expire-outcome now b p (some g) e out w = refl

  answer-outcome :
      (now : Now) (b : TaskBase) (p : W → Attempt Bool × W) (t : Option (W → Attempt String × W))
      (e : ℕ) (out : _) (a : Attempt Bool × W)
      → outcome_of (answer_wait {J = J} now b p t e out a) ≡ answered_outcome b.exception a
  unfolding answer_wait set_state set_error
  answer-outcome now b p t e out (returned true, w) = refl
  answer-outcome now b p t e out (returned false, w) = refl
  answer-outcome now b p t e out (threw x, w) = refl

  -- The round of a waiting task that is not late or is late.
  wait_round :
      Now → TaskBase → (W → Attempt Bool × W) → Option (W → Attempt String × W) → ℕ → W → Round W J
  wait_round now b p t e w =
      let (b1, out) = begin now b none in
      if ltb e now.steady
      then expire_wait now b1 p t e out w
      else answer_wait now b1 p t e out (p w)

  -- A round of a waiting task always returns, and gives the outcome specified: after the deadline an
  -- error (with the text of the callback if there is one) and no look at the condition; otherwise
  -- finished, running or the error thrown, as the condition answers. An earlier error is kept unless a
  -- new one replaces it.
  resume-wait_once :
      (fuel : ℕ) (now : Now) (b : TaskBase) (p : W → Attempt Bool × W)
      (t : Option (W → Attempt String × W)) (e : ℕ) (w : W)
      → (r : Round W J) × (resume fuel now (wait_once b p t e) w ≡ some r)
        × (outcome_of r ≡ wait_outcome now b.exception p t e w)
  unfolding resume wait_round
  resume-wait_once fuel now b p t e w = (wait_round now b p t e w, refl, outcome (ltb e now.steady))
    where
      outcome :
          (late : Bool)
          → let (b1, out) = begin {J = J} now b none in
            let r : Round W J =
              if late then expire_wait now b1 p t e out w else answer_wait now b1 p t e out (p w) in
            outcome_of r
            ≡ (if late then expired_outcome t w else answered_outcome b.exception (p w))
      outcome true = expire-outcome now (begin {J = J} now b none).0 p t e (begin now b none).1 w
      outcome false =
          answer-outcome now (begin {J = J} now b none).0 p t e (begin now b none).1 (p w)
          ∙ ap (λ x. answered_outcome x (p w)) (exception-begin J now b)

  -- Still the same waiting task, or ended.
  abbrev Waits : (W → Attempt Bool × W) → Option (W → Attempt String × W) → ℕ → Task W J → Type 0
  Waits p t e q =
      (is_end (task_state q) ≡ true)
      ⊎ ((b : TaskBase) × (q ≡ wait_once b p t e) × (is_startable b.state ≡ true))

  answer-Waits :
      (now : Now) (b : TaskBase) (p : W → Attempt Bool × W) (t : Option (W → Attempt String × W))
      (e : ℕ) (out : _) (a : Attempt Bool × W)
      → Waits p t e (answer_wait now b p t e out a).task
  unfolding answer_wait set_state set_error
  answer-Waits now b p t e out (returned true, w) = inl refl
  answer-Waits now b p t e out (returned false, w) = inr (_, refl, refl)
  answer-Waits now b p t e out (threw x, w) = inl refl

  expire-end :
      (now : Now) (b : TaskBase) (p : W → Attempt Bool × W) (t : Option (W → Attempt String × W))
      (e : ℕ) (out : _) (w : W)
      → is_end (task_state (expire_wait {J = J} now b p t e out w).task) ≡ true
  unfolding expire_wait set_error
  expire-end now b p none e out w = refl
  expire-end now b p (some g) e out w = refl

  wait_round-Waits :
      (now : Now) (b : TaskBase) (p : W → Attempt Bool × W) (t : Option (W → Attempt String × W))
      (e : ℕ) (w : W)
      → Waits p t e (wait_round now b p t e w).task
  unfolding wait_round
  wait_round-Waits now b p t e w = split (ltb e now.steady)
    where
      split :
          (late : Bool)
          → let (b1, out) = begin {J = J} now b none in
            let r : Round W J =
              if late then expire_wait now b1 p t e out w else answer_wait now b1 p t e out (p w) in
            Waits p t e r.task
      split true = inl (expire-end now (begin {J = J} now b none).0 p t e (begin now b none).1 w)
      split false = answer-Waits now (begin {J = J} now b none).0 p t e (begin now b none).1 (p w)

lt→ltb : (a b : ℕ) → a < b → ltb a b ≡ true
lt→ltb a b h = ground arith

late_round :
    {W : Type 0} (J : Type 0) (now : Now) (b : TaskBase) (p : W → Attempt Bool × W)
    (t : Option (W → Attempt String × W)) (e : ℕ) (w : W)
    → ltb e now.steady ≡ true
    → is_end (task_state (wait_round {J = J} now b p t e w).task) ≡ true
unfolding wait_round
late_round J now b p t e w late =
    rw late (expire-end now (begin {J = J} now b none).0 p t e (begin now b none).1 w)

module _ {W J : Type 0} where
  -- Driven, the task ends in some state of is_end.
  abbrev pub Finishes : ℕ → List Now → Task W J → W → Type 0
  Finishes fuel times q w =
      (q' : Task W J) × (w' : W) × (drive fuel times q w ≡ some (q', w'))
      × (is_end (task_state q') ≡ true)

  ended_stops : (q : Task W J) → is_end (task_state q) ≡ true → is_startable (task_state q) ≡ false
  ended_stops q h = ground arith

  Finishes-ended :
      (fuel : ℕ) (times : List Now) (q : Task W J) (w : W)
      → is_end (task_state q) ≡ true
      → Finishes fuel times q w
  Finishes-ended fuel times q w h = (q, w, drive_stop fuel times q w (ended_stops q h), h)

  -- A waiting task that may be resumed ends at the latest with its first round after the deadline:
  -- driven through any rounds of which the last is late, it is in an end state, whatever its closures
  -- answer.
  pub wait_once_ends :
      (fuel : ℕ) (times : List Now) (late : Now) (b : TaskBase) (p : W → Attempt Bool × W)
      (t : Option (W → Attempt String × W)) (e : ℕ) (w : W)
      → is_startable b.state ≡ true
      → e < late.steady
      → Finishes fuel (times ++ late ∷ []) (wait_once b p t e) w
  unfolding resume wait_round
  wait_once_ends fuel [] late b p t e w hs h =
      let r = wait_round late b p t e w in
      let over = late_round J late b p t e w (lt→ltb e late.steady h) in
      (
        r.task,
        r.world,
        drive_step fuel late [] (wait_once b p t e) w r hs refl
            ∙ drive_stop fuel [] r.task r.world (ended_stops r.task over),
        over,
      )
  wait_once_ends fuel (now ∷ times) late b p t e w hs h =
      again (wait_round-Waits now b p t e w)
        (λ b' h'. wait_once_ends fuel times late b' p t e (wait_round now b p t e w).world h' h)
    where
      step :
          Finishes fuel
            (times ++ late ∷ [])
            (wait_round {J = J} now b p t e w).task
            (wait_round {J = J} now b p t e w).world
          → Finishes fuel (now ∷ (times ++ late ∷ [])) (wait_once b p t e) w
      step (q', w', d, end) = (
        q',
        w',
        drive_step fuel now (times ++ late ∷ []) (wait_once b p t e) w (wait_round now b p t e w) hs
              refl
            ∙ d,
        end,
      )

      again :
          Waits p t e (wait_round {J = J} now b p t e w).task
          → ((b' : TaskBase)
              → is_startable b'.state ≡ true
              → Finishes fuel
                  (times ++ late ∷ [])
                  (wait_once b' p t e)
                  (wait_round {J = J} now b p t e w).world)
          → Finishes fuel (now ∷ (times ++ late ∷ [])) (wait_once b p t e) w
      again (inl done) k = step (Finishes-ended fuel (times ++ late ∷ []) _ _ done)
      again (inr (b', same, startable)) k = step (rw same (k b' startable))
