-- ===== src/DoubleBuffered/Tests.antt =====
-- The theorems about the DoubleBufferedMap at a short history.
use ability_framework.Prelude.{ℕ, true, false, List, [], ◌∷◌, ◌++◌, ◌≡◌, uuid_key}
use ability_framework.Sharded.{Operation, assigns, erases}
use ability_framework.DoubleBuffered.{
  BufferEvent, writes, ticks, new_buffered, sync, run_buffered, operations,
}
use ability_framework.DoubleBuffered.Snapshots.{plain_after, run_buffered-prefix}

abbrev four_events : List (BufferEvent ℕ ℕ)
four_events =
    writes (assigns 1 10) 400 true
    ∷ writes (assigns 2 20) 1600 true
    ∷ writes (erases 1) 1700 true
    ∷ ticks 2000 false
    ∷ []

run_buffered-prefix_example :
    let b = run_buffered 1000 four_events (new_buffered 500) in
    (b.write_buf ≡ plain_after (operations four_events) [])
    × ((earlier later : List (Operation ℕ ℕ)) × (operations four_events ≡ earlier ++ later)
        × (b.read_snp ≡ plain_after earlier []))
    × ((sync b).read_snp ≡ plain_after (operations four_events) [])
run_buffered-prefix_example = run_buffered-prefix 1000 500 four_events
