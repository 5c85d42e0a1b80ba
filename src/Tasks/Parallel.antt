-- ===== src/Tasks/Parallel.antt =====
-- ParallelTask: with atomic subtasks that have not run it does what a sequence of them does.
use ability_framework.Prelude.{
  ℕ, suc, ◌+◌, ◌%◌, ◌≤◌, ◌<◌, String, true, none, some, List, [], ◌∷◌, ◌≡◌, refl, arith, length,
  subst, get_elem?,
}
use native.Mathlib.Nat.{mod-eq_of_lt}
use ability_framework.Tasks.State.{unstarted}
use ability_framework.Tasks.Task.{
  Attempt, returned, threw, Now, TaskBase, Task, atomic, parallel, Subs, nil, cons, task_state,
  size, states, set_state, set_error,
}
use ability_framework.Tasks.Leaf.{begin, finish_atomic}
use ability_framework.Tasks.Composite.{
  find_first_running, join, idle_parallel, is_startable, first_polled,
}
use ability_framework.Tasks.Resume.{resume, resume-parallel}
use ability_framework.Tasks.Drive.{EndsAs, EndsAs-step, EndsAs-stop}
use ability_framework.Tasks.Atoms.{
  Atom, IsFresh, and_then, run_all, atoms, ◌⧺◌, place, finished_atom, advance-atom, leb-size,
  leb_nil, leb_last, leb_more, ⧺-cons, size-suc, size-⧺,
}

module _ {W J : Type 0} where
  states_at :
      (done us : Subs W J) (t : Task W J)
      → get_elem? (states (done ⧺ cons t us)) (size done) ≡ some (task_state t)
  states_at nil us t = refl
  states_at (cons d ds) us t = states_at ds us t

  find_current :
      (fuel n : ℕ) (done us : Subs W J) (t : Task W J)
      → task_state t ≡ unstarted
      → find_first_running fuel (states (done ⧺ cons t us)) n (size done)
        ≡ some (returned (size done))
  unfolding find_first_running
  find_current fuel n done us t fresh = rw (states_at done us t, find_first_running) (rw fresh)

  next_index :
      (done : Subs W J) (d t : Task W J) (us : Subs W J)
      → (size done + 1) % size (done ⧺ cons d (cons t us)) ≡ suc (size done)
  next_index done d t us = rw (mod-eq_of_lt (lt done d t us)) (omega arith)
    where
      lt :
          (done : Subs W J) (d t : Task W J) (us : Subs W J)
          → size done + 1 < size (done ⧺ cons d (cons t us))
      lt done d t us = omega (arith, size-⧺ done (cons d (cons t us)))

  round :
      (fuel : ℕ) (now : Now) (b c : TaskBase) (done rest : Subs W J)
      (f : W → Attempt (Unit {0}) × W) (w : W)
      → c.state ≡ unstarted
      → let fin = finished_atom fuel now c f w in
        resume fuel now (parallel b (done ⧺ cons (atomic c f) rest) (size done) (size done)) w
        ≡ some (
            join now
              (begin {J = J} now b none).0
              (size done)
              (size done)
              (begin now b none).1
              fin.result
              (place done (first_polled fin rest)))
  round fuel now b c done rest f w fresh =
      rw (resume-parallel fuel now b (done ⧺ cons (atomic c f) rest) (size done) (size done) w) (
        rw (
          leb-size done c f rest,
          find_current fuel _ done rest (atomic c f) fresh,
          advance-atom fuel now (λ _. true) done rest c f w refl,
        ))

  -- The parallel task `b` with its finished subtasks in front, of which `size done` have finished.
  abbrev at_turn : TaskBase → Subs W J → Subs W J → Task W J
  at_turn b done us = parallel b (done ⧺ us) (size done) (size done)

  at_turn-shift :
      (b : TaskBase) (done us : Subs W J) (d t : Task W J)
      → at_turn b (done ⧺ cons d nil) (cons t us)
        ≡ parallel b
            (done ⧺ cons d (cons t us))
            (suc (size done))
            ((size done + 1) % size (done ⧺ cons d (cons t us)))
  at_turn-shift b done us d t =
      rw (⧺-cons done d (cons t us), size-suc done d, next_index done d t us)

  parallel_stops :
      (fuel : ℕ) (now : Now) (times : List Now) (b c : TaskBase) (done rest : Subs W J)
      (f : W → Attempt (Unit {0}) × W) (w w1 : W) (x : String)
      → is_startable b.state ≡ true
      → c.state ≡ unstarted
      → f w ≡ (threw x, w1)
      → EndsAs fuel (now ∷ times) (at_turn b done (cons (atomic c f) rest)) w (threw x, w1)
  unfolding join finish_atomic set_error
  parallel_stops fuel now times b c done rest f w w1 x hs fresh e =
      EndsAs-step fuel now times _ w _ (threw x, w1) hs (round fuel now b c done rest f w fresh)
        (rw e (EndsAs-stop fuel times _ w1 (threw x) refl (refl, refl)))

  parallel_ends :
      (fuel : ℕ) (now : Now) (times : List Now) (b c : TaskBase) (done : Subs W J)
      (f : W → Attempt (Unit {0}) × W) (w w1 : W) (u : Unit {0})
      → is_startable b.state ≡ true
      → c.state ≡ unstarted
      → f w ≡ (returned u, w1)
      → EndsAs fuel (now ∷ times) (at_turn b done (cons (atomic c f) nil)) w (returned u, w1)
  unfolding join finish_atomic set_state
  parallel_ends fuel now times b c done f w w1 u hs fresh e =
      EndsAs-step fuel now times _ w _ (returned u, w1) hs (round fuel now b c done nil f w fresh)
        (rw e (rw (leb_last done _) (EndsAs-stop fuel times _ w1 (returned u) refl refl)))

  parallel_goes_on :
      (fuel : ℕ) (now : Now) (times : List Now) (b c : TaskBase) (done us : Subs W J) (t : Task W J)
      (f : W → Attempt (Unit {0}) × W) (w w1 : W) (u : Unit {0}) (s : Attempt (Unit {0}) × W)
      → is_startable b.state ≡ true
      → c.state ≡ unstarted
      → f w ≡ (returned u, w1)
      → ((b' : TaskBase) (d : Task W J)
          → is_startable b'.state ≡ true
          → EndsAs fuel times (at_turn b' (done ⧺ cons d nil) (cons t us)) w1 s)
      → EndsAs fuel (now ∷ times) (at_turn b done (cons (atomic c f) (cons t us))) w s
  unfolding join finish_atomic set_state
  parallel_goes_on fuel now times b c done us t f w w1 u s hs fresh e k =
      EndsAs-step fuel now times _ w _ s hs (round fuel now b c done (cons t us) f w fresh) (
        rw e (
          rw (leb_more done _ t us)
            (subst (λ q. EndsAs fuel times q w1 s) (at_turn-shift _ done us _ t) (k _ _ refl))))

  idle_round :
      (fuel : ℕ) (now : Now) (b : TaskBase) (done : Subs W J) (w : W)
      → let (b1, out) = begin now b none in
        resume fuel now (at_turn b done nil) w
        ≡ some (idle_parallel now b1 (done ⧺ nil) (size done) (size done) out w)
  idle_round fuel now b done w =
      rw (resume-parallel fuel now b (done ⧺ nil) (size done) (size done) w) (rw (leb_nil done))

  parallel_from :
      (fuel : ℕ) (times : List Now) (b : TaskBase) (done : Subs W J) (rest : List (Atom W)) (w : W)
      → is_startable b.state ≡ true
      → IsFresh rest
      → 0 < length times
      → length rest ≤ length times
      → EndsAs fuel times (at_turn b done (atoms rest)) w (run_all rest w)
  unfolding idle_parallel set_state
  parallel_from fuel [] b done rest w hs fresh some_time enough = absurd (omega arith)
  parallel_from fuel (now ∷ times) b done [] w hs fresh some_time enough =
      EndsAs-step fuel now times _ w _ (returned tt, w) hs (idle_round fuel now b done w)
        (EndsAs-stop fuel times _ w (returned tt) refl refl)
  parallel_from fuel (now ∷ times) b done ((c, f) ∷ []) w hs fresh some_time enough =
      settle (f w) refl
    where
      settle :
          (a : Attempt (Unit {0}) × W)
          → f w ≡ a
          → EndsAs fuel
              (now ∷ times)
              (at_turn b done (cons (atomic c f) nil))
              w
              (and_then (f w) (run_all []))
      settle (returned u, w1) e = rw e (parallel_ends fuel now times b c done f w w1 u hs fresh.0 e)
      settle (threw x, w1) e =
          rw e (parallel_stops fuel now times b c done nil f w w1 x hs fresh.0 e)
  parallel_from fuel (now ∷ times) b done ((c, f) ∷ (c2, g) ∷ more) w hs fresh some_time enough =
      settle (f w) refl (λ b' d w1 hs'.
        parallel_from fuel times b' (done ⧺ cons d nil) ((c2, g) ∷ more) w1 hs' fresh.1
          (omega arith) (omega arith))
    where
      settle :
          (a : Attempt (Unit {0}) × W)
          → f w ≡ a
          → ((b' : TaskBase) (d : Task W J) (w1 : W)
              → is_startable b'.state ≡ true
              → EndsAs fuel times
                  (at_turn b' (done ⧺ cons d nil) (cons (atomic c2 g) (atoms more)))
                  w1
                  (run_all ((c2, g) ∷ more) w1))
          → EndsAs fuel
              (now ∷ times)
              (at_turn b done (cons (atomic c f) (cons (atomic c2 g) (atoms more))))
              w
              (and_then (f w) (run_all ((c2, g) ∷ more)))
      settle (returned u, w1) e k = rw e (
          parallel_goes_on fuel now times b c done (atoms more) (atomic c2 g) f w w1 u _ hs fresh.0
            e (λ b' d h. k b' d w1 h))
      settle (threw x, w1) e k =
          rw e (parallel_stops fuel now times b c done _ f w w1 x hs fresh.0 e)

  -- A parallel task of atomic tasks that have not run, driven for at least as many rounds as it has
  -- subtasks (and at least once), gives each one round in turn and stops at the first that throws: it
  -- ends finished or in that error, in the world that a sequence of the same tasks would leave.
  pub parallel_refines :
      (fuel : ℕ) (times : List Now) (b : TaskBase) (rest : List (Atom W)) (w : W)
      → b.state ≡ unstarted
      → IsFresh rest
      → 0 < length times
      → length rest ≤ length times
      → EndsAs {J = J} fuel times (parallel b (atoms rest) 0 0) w (run_all rest w)
  parallel_refines fuel times b rest w hs fresh some_time enough =
      parallel_from fuel times b nil rest w (rw hs) fresh some_time enough
