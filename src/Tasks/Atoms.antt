-- ===== src/Tasks/Atoms.antt =====
-- Atomic tasks that have not run, in a row: what their closures mean together, and the round of one.
use ability_framework.Prelude.{
  ℕ, suc, ◌+◌, Bool, true, false, none, some, List, [], ◌∷◌, ◌≡◌, refl, arith, leb, All, ap,
}
use ability_framework.Tasks.State.{TaskState, unstarted}
use ability_framework.Tasks.Task.{
  Attempt, returned, threw, Now, TaskBase, Task, atomic, sequential, Subs, nil, cons, Round, size,
}
use ability_framework.Tasks.Leaf.{begin, finish_atomic}
use ability_framework.Tasks.Composite.{Polled, first_polled}
use ability_framework.Tasks.Resume.{resume, advance}

-- An atomic task that has not run: its base and its closure.
abbrev pub Atom : Type 0 → Type 0
Atom W = TaskBase × (W → Attempt (Unit {0}) × W)

abbrev pub IsFresh : {W : Type 0} → List (Atom W) → Type 0
IsFresh = All (λ a. a.0.state ≡ unstarted)

module _ {W : Type 0} where
  abbrev pub and_then :
      Attempt (Unit {0}) × W → (W → Attempt (Unit {0}) × W) → Attempt (Unit {0}) × W
  and_then (returned _, w) k = k w
  and_then (threw e, w) k = (threw e, w)

  -- The specification: the closures run in order, up to the first that throws.
  abbrev pub run_all : List (Atom W) → W → Attempt (Unit {0}) × W
  run_all [] w = (returned tt, w)
  run_all ((b, f) ∷ rest) w = and_then (f w) (run_all rest)

module _ {W J : Type 0} where
  abbrev pub atoms : List (Atom W) → Subs W J
  atoms [] = nil
  atoms ((b, f) ∷ rest) = cons (atomic b f) (atoms rest)

  infixr 65 ◌⧺◌
  abbrev pub ◌⧺◌ : Subs W J → Subs W J → Subs W J
  nil ⧺ us = us
  cons t ts ⧺ us = cons t (ts ⧺ us)

  abbrev pub place : Subs W J → Polled W J → Polled W J
  place done p = record p { subs = done ⧺ p.subs }

  pub size-⧺ : (ts us : Subs W J) → size (ts ⧺ us) ≡ size ts + size us
  size-⧺ nil us = omega arith
  size-⧺ (cons t ts) us = omega (arith, size-⧺ ts us)

  pub leb-size :
      (done : Subs W J) (c : TaskBase) (f : W → Attempt (Unit {0}) × W) (rest : Subs W J)
      → leb (size (done ⧺ cons (atomic c f) rest)) (size done) ≡ false
  leb-size done c f rest = ground (arith, size-⧺ done (cons (atomic c f) rest))

  pub leb_nil : (done : Subs W J) → leb (size (done ⧺ nil)) (size done) ≡ true
  leb_nil done = ground (arith, size-⧺ done nil)

  pub leb_last :
      (done : Subs W J) (d : Task W J) → leb (size (done ⧺ cons d nil)) (suc (size done)) ≡ true
  leb_last done d = ground (arith, size-⧺ done (cons d nil))

  pub leb_more :
      (done : Subs W J) (d t : Task W J) (us : Subs W J)
      → leb (size (done ⧺ cons d (cons t us))) (suc (size done)) ≡ false
  leb_more done d t us = ground (arith, size-⧺ done (cons d (cons t us)))

  module _ (fuel : ℕ) (now : Now) where
    abbrev pub finished_atom : TaskBase → (W → Attempt (Unit {0}) × W) → W → Round W J
    finished_atom c f w =
        finish_atomic now (begin {J = J} now c none).0 f (begin now c none).1 (f w)

    pub advance-atom :
        (gate : TaskState → Bool) (done rest : Subs W J) (c : TaskBase)
        (f : W → Attempt (Unit {0}) × W) (w : W)
        → gate c.state ≡ true
        → advance fuel now gate (done ⧺ cons (atomic c f) rest) (size done) w
          ≡ some (place done (first_polled (finished_atom c f w) rest))
    unfolding resume
    advance-atom gate nil rest c f w open_gate = rw open_gate
    advance-atom gate (cons t ts) rest c f w open_gate =
        rw (advance-atom gate ts rest c f w open_gate)

  pub ⧺-cons :
      (done : Subs W J) (t : Task W J) (us : Subs W J) → (done ⧺ cons t nil) ⧺ us ≡ done ⧺ cons t us
  ⧺-cons nil t us = refl
  ⧺-cons (cons d ds) t us = ap (cons d) (⧺-cons ds t us)

  pub size-suc : (done : Subs W J) (d : Task W J) → size (done ⧺ cons d nil) ≡ suc (size done)
  size-suc done d = omega (arith, size-⧺ done (cons d nil))

  pub shift :
      (b : TaskBase) (done : Subs W J) (d : Task W J) (us : Subs W J)
      → sequential b ((done ⧺ cons d nil) ⧺ us) (size (done ⧺ cons d nil))
        ≡ sequential b (done ⧺ cons d us) (suc (size done))
  shift b done d us = rw (⧺-cons done d us, size-suc done d)
