-- ===== src/Tasks/Sequence.antt =====
-- SequentialTask: a sequence of atomic tasks runs them in order and stops at the first that throws.
use ability_framework.Prelude.{
  ℕ, ◌≤◌, ◌<◌, String, true, some, List, [], ◌∷◌, ◌≡◌, refl, arith, length, subst,
}
use ability_framework.Tasks.State.{unstarted}
use ability_framework.Tasks.Task.{
  Attempt, returned, threw, Now, TaskBase, Task, atomic, sequential, Subs, nil, cons, size,
  last_result, set_state, set_error,
}
use ability_framework.Tasks.Leaf.{begin, finish_atomic}
use ability_framework.Tasks.Drive.{EndsAs, EndsAs-step, EndsAs-stop}
use ability_framework.Tasks.Composite.{conclude, complete, is_startable, first_polled}
use ability_framework.Tasks.Resume.{resume, resume-sequential}
use ability_framework.Tasks.Atoms.{
  Atom, IsFresh, and_then, run_all, atoms, ◌⧺◌, place, finished_atom, advance-atom, leb-size,
  leb_nil, leb_last, leb_more, shift,
}

module _ {W J : Type 0} where
  module _ (fuel : ℕ) (now : Now) where
    round :
        (b c : TaskBase) (done rest : Subs W J) (f : W → Attempt (Unit {0}) × W) (w : W)
        → c.state ≡ unstarted
        → let subs = done ⧺ cons (atomic c f) rest in
          let fin = finished_atom fuel now c f w in
          resume fuel now (sequential b subs (size done)) w
          ≡ some (
              conclude now
                (begin now b (last_result subs)).0
                (size done)
                (begin now b (last_result subs)).1
                fin.result
                (place done (first_polled fin rest)))
    round b c done rest f w fresh =
        rw (resume-sequential fuel now b (done ⧺ cons (atomic c f) rest) (size done) w) (
          rw
            (leb-size done c f rest, advance-atom fuel now is_startable done rest c f w (rw fresh)))

  complete_round :
      (fuel : ℕ) (now : Now) (b : TaskBase) (done : Subs W J) (w : W)
      → let (b1, out) = begin now b (last_result (done ⧺ nil)) in
        resume fuel now (sequential b (done ⧺ nil) (size done)) w
        ≡ some (complete now b1 (done ⧺ nil) (size done) out w)
  complete_round fuel now b done w =
      rw (resume-sequential fuel now b (done ⧺ nil) (size done) w) (rw (leb_nil done))

  -- The atom that is current throws.
  sequence_stops :
      (fuel : ℕ) (now : Now) (times : List Now) (b c : TaskBase) (done rest : Subs W J)
      (f : W → Attempt (Unit {0}) × W) (w w1 : W) (x : String)
      → is_startable b.state ≡ true
      → c.state ≡ unstarted
      → f w ≡ (threw x, w1)
      → EndsAs fuel
          (now ∷ times)
          (sequential b (done ⧺ cons (atomic c f) rest) (size done))
          w
          (threw x, w1)
  unfolding conclude finish_atomic set_error
  sequence_stops fuel now times b c done rest f w w1 x hs fresh e =
      EndsAs-step fuel now times _ w _ (threw x, w1) hs (round fuel now b c done rest f w fresh)
        (rw e (EndsAs-stop fuel times _ w1 (threw x) refl (refl, refl)))

  -- The last atom returns.
  sequence_ends :
      (fuel : ℕ) (now : Now) (times : List Now) (b c : TaskBase) (done : Subs W J)
      (f : W → Attempt (Unit {0}) × W) (w w1 : W) (u : Unit {0})
      → is_startable b.state ≡ true
      → c.state ≡ unstarted
      → f w ≡ (returned u, w1)
      → EndsAs fuel
          (now ∷ times)
          (sequential b (done ⧺ cons (atomic c f) nil) (size done))
          w
          (returned u, w1)
  unfolding conclude finish_atomic set_state
  sequence_ends fuel now times b c done f w w1 u hs fresh e =
      EndsAs-step fuel now times _ w _ (returned u, w1) hs (round fuel now b c done nil f w fresh)
        (rw e (rw (leb_last done _) (EndsAs-stop fuel times _ w1 (returned u) refl refl)))

  -- An atom returns, and others follow: the sequence goes on behind it.
  sequence_goes_on :
      (fuel : ℕ) (now : Now) (times : List Now) (b c : TaskBase) (done us : Subs W J) (t : Task W J)
      (f : W → Attempt (Unit {0}) × W) (w w1 : W) (u : Unit {0}) (s : Attempt (Unit {0}) × W)
      → is_startable b.state ≡ true
      → c.state ≡ unstarted
      → f w ≡ (returned u, w1)
      → ((b' : TaskBase) (d : Task W J)
          → is_startable b'.state ≡ true
          → EndsAs fuel times
              (sequential b' ((done ⧺ cons d nil) ⧺ cons t us) (size (done ⧺ cons d nil)))
              w1
              s)
      → EndsAs fuel
          (now ∷ times)
          (sequential b (done ⧺ cons (atomic c f) (cons t us)) (size done))
          w
          s
  unfolding conclude finish_atomic set_state
  sequence_goes_on fuel now times b c done us t f w w1 u s hs fresh e k =
      EndsAs-step fuel now times _ w _ s hs (round fuel now b c done (cons t us) f w fresh) (
        rw e (
          rw (leb_more done _ t us)
            (subst (λ q. EndsAs fuel times q w1 s) (shift _ done _ (cons t us)) (k _ _ refl))))

  -- The sequence behind its finished tasks `done` ends as the rest of its closures say.
  sequence_from :
      (fuel : ℕ) (times : List Now) (b : TaskBase) (done : Subs W J) (rest : List (Atom W)) (w : W)
      → is_startable b.state ≡ true
      → IsFresh rest
      → 0 < length times
      → length rest ≤ length times
      → EndsAs fuel times (sequential b (done ⧺ atoms rest) (size done)) w (run_all rest w)
  unfolding complete set_state
  sequence_from fuel [] b done rest w hs fresh some_time enough = absurd (omega arith)
  sequence_from fuel (now ∷ times) b done [] w hs fresh some_time enough =
      EndsAs-step fuel now times _ w _ (returned tt, w) hs (complete_round fuel now b done w)
        (EndsAs-stop fuel times _ w (returned tt) refl refl)
  sequence_from fuel (now ∷ times) b done ((c, f) ∷ []) w hs fresh some_time enough =
      settle (f w) refl
    where
      settle :
          (a : Attempt (Unit {0}) × W)
          → f w ≡ a
          → EndsAs fuel
              (now ∷ times)
              (sequential b (done ⧺ cons (atomic c f) nil) (size done))
              w
              (and_then (f w) (run_all []))
      settle (returned u, w1) e = rw e (sequence_ends fuel now times b c done f w w1 u hs fresh.0 e)
      settle (threw x, w1) e =
          rw e (sequence_stops fuel now times b c done nil f w w1 x hs fresh.0 e)
  sequence_from fuel (now ∷ times) b done ((c, f) ∷ (c2, g) ∷ more) w hs fresh some_time enough =
      settle (f w) refl (λ b' d w1 hs'.
        sequence_from fuel times b' (done ⧺ cons d nil) ((c2, g) ∷ more) w1 hs' fresh.1
          (omega arith) (omega arith))
    where
      settle :
          (a : Attempt (Unit {0}) × W)
          → f w ≡ a
          → ((b' : TaskBase) (d : Task W J) (w1 : W)
              → is_startable b'.state ≡ true
              → EndsAs fuel times
                  (sequential b'
                    ((done ⧺ cons d nil) ⧺ cons (atomic c2 g) (atoms more))
                    (size (done ⧺ cons d nil)))
                  w1
                  (run_all ((c2, g) ∷ more) w1))
          → EndsAs fuel
              (now ∷ times)
              (sequential b
                (done ⧺ cons (atomic c f) (cons (atomic c2 g) (atoms more)))
                (size done))
              w
              (and_then (f w) (run_all ((c2, g) ∷ more)))
      settle (returned u, w1) e k = rw e (
          sequence_goes_on fuel now times b c done (atoms more) (atomic c2 g) f w w1 u _ hs fresh.0
            e (λ b' d h. k b' d w1 h))
      settle (threw x, w1) e k =
          rw e (sequence_stops fuel now times b c done _ f w w1 x hs fresh.0 e)

  -- A sequence of atomic tasks that have not run, driven for at least as many rounds as it has tasks
  -- (and at least once), runs their closures in order and stops at the first that throws. It ends
  -- finished if none throws, and otherwise in the error of the one that threw; the world is the one
  -- that the closures so run leave.
  pub sequence_refines :
      (fuel : ℕ) (times : List Now) (b : TaskBase) (rest : List (Atom W)) (w : W)
      → b.state ≡ unstarted
      → IsFresh rest
      → 0 < length times
      → length rest ≤ length times
      → EndsAs {J = J} fuel times (sequential b (atoms rest) 0) w (run_all rest w)
  sequence_refines fuel times b rest w hs fresh some_time enough =
      sequence_from fuel times b nil rest w (rw hs) fresh some_time enough
