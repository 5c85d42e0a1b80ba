-- ===== src/DoubleBuffered.antt =====
-- DoubleBufferedMap of include/util/concurrent_map.hpp and include/util/concurrent_map.tpp. Writes go
-- to a buffer behind a lock, and reads to a snapshot that is replaced by a copy of the buffer at
-- times. A write and the check for a copy that follows it are one step here, and so is each reading.
mod Snapshots
mod Tests
use ability_framework.Prelude.{
  ℕ, ◌+◌, ◌≤◌, Bool, true, false, not, ◌||◌, Option, none, some, List, [], ◌∷◌, ◌++◌, ◌==◌, ltb,
  ◌≡◌, ◌⊎◌, inl, inr, refl, sym, ap, ◌∙◌, arith, if◌then◌else◌, Key, Map, find, insert, erase,
  is_some, length,
}
use ability_framework.Sharded.{
  Operation, assigns, emplaces, erases, clears, execs, on_plain, run_plain,
}

pub record Buffered (K V : Type 0) : Type 0 where
  pub write_buf : Map K V
  pub read_snp : Map K V
  pub last_sync_ms : ℕ

-- What happens to the map: an operation that writes, with the clock at the check that follows and
-- whether the lock on copies is free then; a check by the map's own thread; a call of sync.
pub data BufferEvent (K V : Type 0) : Type 0 where
  writes : Operation K V → ℕ → Bool → BufferEvent K V
  ticks : ℕ → Bool → BufferEvent K V
  syncs : BufferEvent K V

module _ {K V : Type 0} ⦃key : Key K⦄ where
  -- The constructor, at a time.
  unfoldable pub new_buffered : ℕ → Buffered K V
  new_buffered now = record { write_buf = []; read_snp = []; last_sync_ms = now }

  unfoldable pub buffered_find : K → Buffered K V → Option V
  buffered_find k b = find k b.read_snp

  unfoldable pub buffered_contains : K → Buffered K V → Bool
  buffered_contains k b = is_some (find k b.read_snp)

  -- `at` and operator[]; `none` is std::out_of_range.
  unfoldable pub buffered_at : K → Buffered K V → Option V
  buffered_at k b = find k b.read_snp

  unfoldable pub buffered_size : Buffered K V → ℕ
  buffered_size b = length b.read_snp

  unfoldable pub buffered_empty : Buffered K V → Bool
  buffered_empty b = length b.read_snp == 0

  -- for_each: the elements that the function is called on.
  unfoldable pub buffered_for_each : Buffered K V → List (K × V)
  buffered_for_each b = b.read_snp

  -- sync, by sync_locked.
  unfoldable pub sync : Buffered K V → Buffered K V
  sync b = record b { read_snp = b.write_buf }

  abbrev pub operations : List (BufferEvent K V) → List (Operation K V)
  operations [] = []
  operations (writes o now free ∷ es) = o ∷ operations es
  operations (ticks now free ∷ es) = operations es
  operations (syncs ∷ es) = operations es

  -- The buffer after a write, and the snapshot: what it was, or the buffer.
  abbrev pub IsCopied : Map K V → Map K V → Buffered K V → Type 0
  IsCopied m seen b = (b.write_buf ≡ m) × ((b.read_snp ≡ seen) ⊎ (b.read_snp ≡ m))

  module _ (sync_interval_ms : ℕ) where
    unfoldable pub maybe_sync : ℕ → Bool → Buffered K V → Buffered K V
    unfolding sync
    maybe_sync now free b =
        if sync_interval_ms == 0
        then b
        else if ltb now (b.last_sync_ms + sync_interval_ms)
        then b
        else if free
        then record b { read_snp = b.write_buf; last_sync_ms = now }
        else b

    unfoldable pub buffered_assign : K → V → ℕ → Bool → Buffered K V → Buffered K V
    buffered_assign k v now free b =
        maybe_sync now free (record b { write_buf = insert k v b.write_buf })

    -- emplace: whether the key was new, and only then a check.
    unfoldable pub buffered_emplace : K → V → ℕ → Bool → Buffered K V → Bool × Buffered K V
    buffered_emplace k v now free b =
        if is_some (find k b.write_buf)
        then (false, b)
        else (true, maybe_sync now free (record b { write_buf = insert k v b.write_buf }))

    unfoldable pub buffered_erase : K → ℕ → Bool → Buffered K V → Buffered K V
    buffered_erase k now free b = maybe_sync now free (record b { write_buf = erase k b.write_buf })

    unfoldable pub buffered_clear : ℕ → Bool → Buffered K V → Buffered K V
    buffered_clear now free b = maybe_sync now free (record b { write_buf = [] })

    unfoldable pub buffered_exec : K → (Option V → V) → ℕ → Bool → Buffered K V → Buffered K V
    buffered_exec k f now free b =
        maybe_sync now free (record b { write_buf = insert k (f (find k b.write_buf)) b.write_buf })

    unfoldable pub on_write : Operation K V → ℕ → Bool → Buffered K V → Buffered K V
    unfolding buffered_assign buffered_emplace buffered_erase buffered_clear buffered_exec
    on_write (assigns k v) now free b = buffered_assign k v now free b
    on_write (emplaces k v) now free b = (buffered_emplace k v now free b).1
    on_write (erases k) now free b = buffered_erase k now free b
    on_write clears now free b = buffered_clear now free b
    on_write (execs k f) now free b = buffered_exec k f now free b

    unfoldable pub on_buffer_event : BufferEvent K V → Buffered K V → Buffered K V
    on_buffer_event (writes o now free) b = on_write o now free b
    on_buffer_event (ticks now free) b = maybe_sync now free b
    on_buffer_event syncs b = sync b

    unfoldable pub run_buffered : List (BufferEvent K V) → Buffered K V → Buffered K V
    run_buffered [] b = b
    run_buffered (e ∷ es) b = run_buffered es (on_buffer_event e b)
