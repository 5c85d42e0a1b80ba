-- ===== src/DoubleBuffered/Snapshots.antt =====
-- What the readers of a DoubleBufferedMap see (include/util/concurrent_map.tpp).
use ability_framework.Prelude.{
  ℕ, ◌+◌, Bool, true, false, List, [], ◌∷◌, ◌++◌, ◌==◌, ltb, ◌≡◌, ◌⊎◌, inl, inr, refl, ap, ◌∙◌,
  if◌then◌else◌, by_cases, Key, Map, find, insert, erase, is_some,
}
use ability_framework.Sharded.{
  Operation, assigns, emplaces, erases, clears, execs, on_plain, run_plain,
}
use ability_framework.DoubleBuffered.{
  Buffered, BufferEvent, writes, ticks, syncs, new_buffered, sync, maybe_sync, buffered_assign,
  buffered_emplace, buffered_erase, buffered_clear, buffered_exec, on_write, on_buffer_event,
  run_buffered, operations, IsCopied,
}

module _ {K V : Type 0} ⦃key : Key K⦄ where
  -- The plain map after some operations.
  abbrev pub plain_after : List (Operation K V) → Map K V → Map K V
  plain_after os m = (run_plain os m).1

module _ {K V : Type 0} ⦃key : Key K⦄ (interval : ℕ) where
  maybe_sync-IsCopied :
      (now : ℕ) (free : Bool) (b : Buffered K V)
      → IsCopied b.write_buf b.read_snp (maybe_sync interval now free b)
  unfolding maybe_sync
  maybe_sync-IsCopied now free b =
      let same : IsCopied b.write_buf b.read_snp b = (refl, inl refl) in
      by_cases (IsCopied b.write_buf b.read_snp) (interval == 0) same (
        by_cases (IsCopied b.write_buf b.read_snp) (ltb now (b.last_sync_ms + interval)) same
          (by_cases (IsCopied b.write_buf b.read_snp) free (refl, inr refl) same))

  on_write-IsCopied :
      (o : Operation K V) (now : ℕ) (free : Bool) (b : Buffered K V)
      → IsCopied (on_plain o b.write_buf).1 b.read_snp (on_write interval o now free b)
  unfolding on_write buffered_assign buffered_emplace buffered_erase buffered_clear buffered_exec
  on_write-IsCopied (assigns k v) now free b =
      maybe_sync-IsCopied now free (record b { write_buf = insert k v b.write_buf })
  on_write-IsCopied (emplaces k v) now free b = by_found (is_some (find k b.write_buf))
    where
      b' : Buffered K V
      b' = record b { write_buf = insert k v b.write_buf }

      by_found :
          (c : Bool)
          → IsCopied
              (let answer : List Bool × Map K V =
                  if c then (false ∷ [], b.write_buf) else (true ∷ [], insert k v b.write_buf) in
                answer.1)
              b.read_snp
              (let step : Bool × Buffered K V =
                  if c then (false, b) else (true, maybe_sync interval now free b') in
                step.1)
      by_found true = (refl, inl refl)
      by_found false = maybe_sync-IsCopied now free b'
  on_write-IsCopied (erases k) now free b =
      maybe_sync-IsCopied now free (record b { write_buf = erase k b.write_buf })
  on_write-IsCopied clears now free b = maybe_sync-IsCopied now free (record b { write_buf = [] })
  on_write-IsCopied (execs k f) now free b =
      maybe_sync-IsCopied now free
        (record b { write_buf = insert k (f (find k b.write_buf)) b.write_buf })

  -- What a history leaves: all writes in the buffer, and in the snapshot what it was, or what a part
  -- of the writes makes.
  abbrev Shows : List (Operation K V) → Map K V → Map K V → Buffered K V → Type 0
  Shows os m seen b =
      (b.write_buf ≡ plain_after os m)
      × ((b.read_snp ≡ seen)
          ⊎ ((earlier later : List (Operation K V)) × (os ≡ earlier ++ later)
              × (b.read_snp ≡ plain_after earlier m)))

  -- A copy before the history: no writes, or those before it.
  Shows-check :
      (os : List (Operation K V)) (m seen : Map K V) (b b' : Buffered K V)
      → IsCopied m seen b
      → Shows os b.write_buf b.read_snp b'
      → Shows os m seen b'
  Shows-check os m seen b b' (e, copied) (f, shown) = (
    f ∙ ap (plain_after os) e,
    elim shown [
      | inl old ↦ elim copied [
        | inl before ↦ inl (old ∙ before)
        | inr now ↦ inr ([], os, refl, old ∙ now)
      ]
      | inr (earlier, later, split, new) ↦
          inr (earlier, later, split, new ∙ ap (plain_after earlier) e)
    ],
  )

  Shows-write :
      (o : Operation K V) (os : List (Operation K V)) (m seen : Map K V) (b b' : Buffered K V)
      → IsCopied (on_plain o m).1 seen b
      → Shows os b.write_buf b.read_snp b'
      → Shows (o ∷ os) m seen b'
  Shows-write o os m seen b b' (e, copied) (f, shown) = (
    f ∙ ap (plain_after os) e,
    elim shown [
      | inl old ↦ elim copied [
        | inl before ↦ inl (old ∙ before)
        | inr now ↦ inr (o ∷ [], os, refl, old ∙ now)
      ]
      | inr (earlier, later, split, new) ↦
          inr (o ∷ earlier, later, ap (λ x. o ∷ x) split, new ∙ ap (plain_after earlier) e)
    ],
  )

  run_buffered-Shows :
      (es : List (BufferEvent K V)) (b : Buffered K V)
      → Shows (operations es) b.write_buf b.read_snp (run_buffered interval es b)
  unfolding run_buffered on_buffer_event sync
  run_buffered-Shows [] b = (refl, inl refl)
  run_buffered-Shows (writes o now free ∷ es) b =
      let b' = on_write interval o now free b in
      Shows-write o (operations es) b.write_buf b.read_snp b' (run_buffered interval es b')
        (on_write-IsCopied o now free b) (run_buffered-Shows es b')
  run_buffered-Shows (ticks now free ∷ es) b =
      let b' = maybe_sync interval now free b in
      Shows-check (operations es) b.write_buf b.read_snp b' (run_buffered interval es b')
        (maybe_sync-IsCopied now free b) (run_buffered-Shows es b')
  run_buffered-Shows (syncs ∷ es) b =
      let b' = sync b in
      Shows-check (operations es) b.write_buf b.read_snp b' (run_buffered interval es b')
        (refl, inr refl) (run_buffered-Shows es b')

  -- After any history of writes, checks and calls of sync on a new map, whatever the times and
  -- whether the lock on copies is free or not: the buffer is the plain map after all the writes; the
  -- snapshot, which the readers see, is the plain map after a first part of them; and a call of sync
  -- makes it the plain map after all.
  pub run_buffered-prefix :
      (start : ℕ) (es : List (BufferEvent K V))
      → let b = run_buffered interval es (new_buffered start) in
        (b.write_buf ≡ plain_after (operations es) [])
        × ((earlier later : List (Operation K V)) × (operations es ≡ earlier ++ later)
            × (b.read_snp ≡ plain_after earlier []))
        × ((sync b).read_snp ≡ plain_after (operations es) [])
  unfolding new_buffered sync
  run_buffered-prefix start es =
      let (written, shown) = run_buffered-Shows es (new_buffered start) in
      (written, elim shown [ inl old ↦ ([], operations es, refl, old) | inr new ↦ new ], written)
