-- ===== src/Tasks/Resume.antt =====
-- src/taskmgr/common_tasks.cpp: one round of a task, `resume`, for every built-in task; the worker of
-- the thread pool; and rounds in a row, as the task manager gives them.
use ability_framework.Prelude.{
  ℕ, zero, suc, String, Bool, true, false, ◌&&◌, ◌≡◌, refl, Option, none, some, List, [], ◌∷◌, ◌++◌,
  ltb, leb, ◌==◌, if◌then◌else◌,
}
use ability_framework.Tasks.State.{TaskState, finished}
use ability_framework.Tasks.Task.{
  Attempt, returned, threw, Now, TaskBase, TaskStatus, Task, atomic, value_atomic, sequential,
  wait_once, delay, thread_queue, parallel, Subs, nil, cons, Round, set_state, set_error,
  task_state, size, states, last_result,
}
use ability_framework.Tasks.Leaf.{
  begin, finish_atomic, finish_value, expire_wait, answer_wait, resume_delay, queue_work, stamp,
  report,
}
use ability_framework.Tasks.Composite.{
  Polled, find_first_running, is_startable, conclude, complete, join, fail_parallel, idle_parallel,
  first_polled, later_polled,
}

module _ {W J : Type 0} where
  abbrev pub after_poll : (Polled W J → Round W J) → Option (Polled W J) → Option (Round W J)
  after_poll k none = none
  after_poll k (some p) = some (k p)

  abbrev pub after_search :
      (ℕ → Option (Round W J)) → (String → Round W J) → Option (Attempt ℕ) → Option (Round W J)
  after_search k h none = none
  after_search k h (some (returned i)) = k i
  after_search k h (some (threw x)) = some (h x)

  abbrev wrap_first : Subs W J → Option (Round W J) → Option (Polled W J)
  wrap_first ts none = none
  wrap_first ts (some r) = some (first_polled r ts)

  abbrev wrap_later : Task W J → Option (Polled W J) → Option (Polled W J)
  wrap_later t none = none
  wrap_later t (some p) = some (later_polled t p)

module _ {W J : Type 0} (fuel : ℕ) (now : Now) where
  unfoldable mutual
    unfolding begin set_state last_result finish_atomic finish_value expire_wait answer_wait
        resume_delay queue_work conclude complete join fail_parallel idle_parallel
        find_first_running

    -- resume
    pub resume : Task W J → W → Option (Round W J)
    resume (atomic b f) w =
        let (b1, out) = begin now b none in some (finish_atomic now b1 f out (f w))
    resume (value_atomic b f r) w =
        let (b1, out) = begin now b r in some (finish_value now b1 f r out (f w))
    resume (sequential b subs current) w =
        let (b1, out) = begin now b (last_result subs) in
        let polled = advance is_startable subs current w in
        if leb (size subs) current
        then some (complete now b1 subs current out w)
        else after_poll (λ p. conclude now b1 current out p.result p) polled
    resume (wait_once b p t e) w =
        let (b1, out) = begin now b none in
        some (
          if ltb e now.steady
          then expire_wait now b1 p t e out w
          else answer_wait now b1 p t e out (p w))
    resume (delay b d f) w = some (resume_delay now b d f w)
    resume (thread_queue b f q) w = some (queue_work now (stamp now b) f q b.state w)
    resume (parallel b subs done current) w =
        let (b1, out) = begin now b none in
        let polled = λ (i : ℕ). advance (λ _. true) subs i w in
        if leb (size subs) done
        then some (idle_parallel now b1 subs done current out w)
        else after_search (λ i. after_poll (λ p. join now b1 done i out p.result p) (polled i))
            (λ x. fail_parallel now b1 subs done current out x w)
            (find_first_running fuel (states subs) (size subs) current)

    -- Resumes the subtask at an index, if its state is let through; otherwise reads its state.
    pub advance : (TaskState → Bool) → Subs W J → ℕ → W → Option (Polled W J)
    advance gate nil i w = none
    advance gate (cons t ts) zero w =
        let resumed = wrap_first ts (resume t w) in
        if gate (task_state t)
        then resumed
        else some
            (record { subs = cons t ts; sub = t; result = task_state t; world = w; sent = [] })
    advance gate (cons t ts) (suc i) w = wrap_later t (advance gate ts i w)

module _ {W J : Type 0} (fuel : ℕ) (now : Now) where
  -- The rounds of the two composite tasks, with the round of a subtask kept shut.
  pub resume-sequential :
      (b : TaskBase) (subs : Subs W J) (current : ℕ) (w : W)
      → resume fuel now (sequential b subs current) w ≡ (
          let (b1, out) = begin now b (last_result subs) in
          if leb (size subs) current
          then some (complete now b1 subs current out w)
          else after_poll
              (λ p. conclude now b1 current out p.result p)
              (advance fuel now is_startable subs current w))
  unfolding resume
  resume-sequential b subs current w = refl

  pub resume-parallel :
      (b : TaskBase) (subs : Subs W J) (done current : ℕ) (w : W)
      → resume fuel now (parallel b subs done current) w ≡ (
          let (b1, out) = begin now b none in
          if leb (size subs) done
          then some (idle_parallel now b1 subs done current out w)
          else after_search
              (λ i.
                after_poll
                  (λ p. join now b1 done i out p.result p)
                  (advance fuel now (λ _. true) subs i w))
              (λ x. fail_parallel now b1 subs done current out x w)
              (find_first_running fuel (states subs) (size subs) current))
  unfolding resume
  resume-parallel b subs done current w = refl

module _ {W J : Type 0} (now : Now) (id : ℕ) where
  -- What the closure that ThreadQueueWorkTask hands to the thread pool leaves.
  unfoldable pub after_work :
      TaskBase
      → (W → Attempt (Unit {0}) × W)
      → Attempt (Unit {0}) × W
      → Task W J × W × List (TaskStatus J)
  unfolding set_state set_error
  after_work b f (returned _, w) =
      let b' = set_state now b finished in (thread_queue b' f false, w, report b' none ∷ [])
  after_work b f (threw x, w) =
      let b' = set_error now b (some x) in (thread_queue b' f false, w, report b' none ∷ [])

  -- A thread of the pool takes up the queued task `id`, wherever it stands.
  unfoldable mutual
    unfolding after_work

    pub work : Task W J → W → Task W J × W × List (TaskStatus J)
    work (thread_queue b f q) w =
        if q && b.uuid == id then after_work b f (f w) else (thread_queue b f q, w, [])
    work (sequential b subs c) w =
        let (subs', w', out) = work_subs subs w in (sequential b subs' c, w', out)
    work (parallel b subs d c) w =
        let (subs', w', out) = work_subs subs w in (parallel b subs' d c, w', out)
    work (atomic b f) w = (atomic b f, w, [])
    work (value_atomic b f r) w = (value_atomic b f r, w, [])
    work (wait_once b p t e) w = (wait_once b p t e, w, [])
    work (delay b d f) w = (delay b d f, w, [])

    pub work_subs : Subs W J → W → Subs W J × W × List (TaskStatus J)
    work_subs nil w = (nil, w, [])
    work_subs (cons t ts) w =
        let (t', w1, out) = work t w in
        let (ts', w2, more) = work_subs ts w1 in (cons t' ts', w2, out ++ more)

module _ {W J : Type 0} (fuel : ℕ) where
  -- Rounds in a row at the given times. The task manager gives a round to a task in a startable
  -- state only, so a task in another state stays as it is.
  unfoldable pub drive : List Now → Task W J → W → Option (Task W J × W)
  drive [] t w = some (t, w)
  drive (now ∷ rest) t w = elim (is_startable (task_state t)) [
    | false ↦ some (t, w)
    | true ↦ elim (resume fuel now t w) [ none ↦ none | some r ↦ drive rest r.task r.world ]
  ]
