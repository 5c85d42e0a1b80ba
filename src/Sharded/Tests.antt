-- ===== src/Sharded/Tests.antt =====
-- A history on eight shards, and the theorem at it.
use ability_framework.Prelude.{ℕ, ◌+◌, none, some, List, [], ◌∷◌, ◌≡◌, refl, find, uuid_key}
use ability_framework.Sharded.{
  Operation, assigns, emplaces, erases, clears, execs, Shards, run_shards, run_plain, sharded_find,
  run_shards-Agrees,
}

abbrev history : List (Operation ℕ ℕ)
history =
    clears
    ∷ assigns 3 10
    ∷ emplaces 11 20
    ∷ emplaces 3 30
    ∷ execs 11 (λ o. elim o [ none ↦ 0 | some v ↦ v + 1 ])
    ∷ erases 3
    ∷ []

abbrev itself : ℕ → ℕ
itself k = k

abbrev no_shards : Shards ℕ ℕ
no_shards i = []

run_shards-Agrees_example :
    ((run_shards itself 8 history no_shards).0 ≡ (run_plain history []).0)
    × ((k : ℕ)
        → sharded_find itself 8 k (run_shards itself 8 history no_shards).1
          ≡ find k (run_plain history []).1)
run_shards-Agrees_example = run_shards-Agrees itself 8 history no_shards [] (λ k. refl)
