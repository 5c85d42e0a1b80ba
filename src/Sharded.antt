-- ===== src/Sharded.antt =====
-- ShardedLockMap of include/util/concurrent_map.hpp, the table of heartbeats among its uses. A shard is
-- a map behind a lock, so every operation on a key is one step on the shard of the key's hash; the
-- array of shards is a function of the index. The hash is a parameter.
mod Whole
mod Tests
use ability_framework.Prelude.{
  ℕ, ◌%◌, Bool, true, false, Option, none, some, List, [], ◌∷◌, ◌++◌, ◌==◌, ==_iff, ◌≡◌, refl, sym,
  ap, ◌∙◌, if◌then◌else◌, Bool-cases, inl, inr, ◌⊎◌, Key, Map, find, insert, erase, find-insert,
  find-erase, is_some, arith,
}

-- One operation on a map; `execs` is exec_on_key, whose function sees no value where the key is new.
pub data Operation (K V : Type 0) : Type 0 where
  assigns : K → V → Operation K V
  emplaces : K → V → Operation K V
  erases : K → Operation K V
  clears : Operation K V
  execs : K → (Option V → V) → Operation K V

-- std::array<Shard, ShardCount>
abbrev pub Shards : Type 0 → Type 0 → Type 0
Shards K V = ℕ → Map K V

abbrev pub put_shard : {K V : Type 0} → ℕ → Map K V → Shards K V → Shards K V
put_shard i m s j = if i == j then m else s j

-- get_shard_index
abbrev pub shard_index : {K : Type 0} → (K → ℕ) → ℕ → K → ℕ
shard_index hash shard_count k = hash k % shard_count

module _ {K V : Type 0} ⦃key : Key K⦄ where
  -- The specification: the operation on one plain map, with what it answers.
  abbrev pub on_plain : Operation K V → Map K V → List Bool × Map K V
  on_plain (assigns k v) m = ([], insert k v m)
  on_plain (emplaces k v) m =
      if is_some (find k m) then (false ∷ [], m) else (true ∷ [], insert k v m)
  on_plain (erases k) m = (is_some (find k m) ∷ [], erase k m)
  on_plain clears m = ([], [])
  on_plain (execs k f) m = ([], insert k (f (find k m)) m)

  abbrev pub run_plain : List (Operation K V) → Map K V → List Bool × Map K V
  run_plain [] m = ([], m)
  run_plain (o ∷ os) m =
      let (answers, m1) = on_plain o m in let (rest, m2) = run_plain os m1 in (answers ++ rest, m2)

  module _ (hash : K → ℕ) (shard_count : ℕ) where
    -- find
    unfoldable pub sharded_find : K → Shards K V → Option V
    sharded_find k s = find k (s (shard_index hash shard_count k))

    -- contains
    unfoldable pub sharded_contains : K → Shards K V → Bool
    sharded_contains k s = is_some (find k (s (shard_index hash shard_count k)))

    -- insert_or_assign
    unfoldable pub sharded_assign : K → V → Shards K V → Shards K V
    sharded_assign k v s =
        let i = shard_index hash shard_count k in put_shard i (insert k v (s i)) s

    -- emplace
    unfoldable pub sharded_emplace : K → V → Shards K V → Bool × Shards K V
    sharded_emplace k v s =
        let i = shard_index hash shard_count k in
        if is_some (find k (s i)) then (false, s) else (true, put_shard i (insert k v (s i)) s)

    -- erase: whether an element was removed.
    unfoldable pub sharded_erase : K → Shards K V → Bool × Shards K V
    sharded_erase k s =
        let i = shard_index hash shard_count k in
        (is_some (find k (s i)), put_shard i (erase k (s i)) s)

    -- clear
    unfoldable pub sharded_clear : Shards K V → Shards K V
    sharded_clear s i = []

    -- exec_on_key
    unfoldable pub exec_on_key : K → (Option V → V) → Shards K V → Shards K V
    exec_on_key k f s =
        let i = shard_index hash shard_count k in put_shard i (insert k (f (find k (s i))) (s i)) s

    abbrev one_answer : Bool × Shards K V → List Bool × Shards K V
    one_answer (b, s) = (b ∷ [], s)

    unfoldable pub on_shards : Operation K V → Shards K V → List Bool × Shards K V
    unfolding sharded_assign sharded_emplace sharded_erase sharded_clear exec_on_key
    on_shards (assigns k v) s = ([], sharded_assign k v s)
    on_shards (emplaces k v) s = one_answer (sharded_emplace k v s)
    on_shards (erases k) s = one_answer (sharded_erase k s)
    on_shards clears s = ([], sharded_clear s)
    on_shards (execs k f) s = ([], exec_on_key k f s)

    unfoldable pub run_shards : List (Operation K V) → Shards K V → List Bool × Shards K V
    unfolding on_shards
    run_shards [] s = ([], s)
    run_shards (o ∷ os) s =
        let (answers, s1) = on_shards o s in
        let (rest, s2) = run_shards os s1 in (answers ++ rest, s2)

    -- Every key is found in its shard as in the plain map.
    abbrev pub Represents : Shards K V → Map K V → Type 0
    Represents s m = (k : K) → find k (s (shard_index hash shard_count k)) ≡ find k m

    -- Changing the shard of a key as the plain map is changed.
    put_shard-Represents :
        (k : K) (o : Option V) (n m m1 : Map K V) (s : Shards K V)
        → Represents s m
        → ((j : K)
            → find j n ≡ (if key.same k j then o else find j (s (shard_index hash shard_count k))))
        → ((j : K) → find j m1 ≡ (if key.same k j then o else find j m))
        → Represents (put_shard (shard_index hash shard_count k) n s) m1
    put_shard-Represents k o n m m1 s r of_shard of_map j = by_index (Bool-cases (at_k == at_j))
      where
        at_k : ℕ
        at_k = shard_index hash shard_count k

        at_j : ℕ
        at_j = shard_index hash shard_count j

        other_key : at_k == at_j ≡ false → key.same k j ≡ false
        other_key other = elim (Bool-cases (key.same k j)) [
          | inl same ↦ ground (
            arith,
            other,
            (==_iff at_k at_j).1 (ap (shard_index hash shard_count) ((key.same_iff k j).0 same)),
          )
          | inr distinct ↦ distinct
        ]

        by_index :
            (at_k == at_j ≡ true) ⊎ (at_k == at_j ≡ false)
            → find j (if at_k == at_j then n else s at_j) ≡ find j m1
        by_index (inl eq) =
            ap (λ c. find j (if c then n else s at_j)) eq
            ∙ of_shard j
            ∙ ap (λ x. if key.same k j then o else x)
                (ap (λ i. find j (s i)) ((==_iff at_k at_j).0 eq) ∙ r j)
            ∙ sym (of_map j)
        by_index (inr other) =
            ap (λ c. find j (if c then n else s at_j)) other
            ∙ r j
            ∙ ap (λ c. if c then o else find j m) (sym (other_key other))
            ∙ sym (of_map j)

    inserted-Represents :
        (k : K) (v : V) (s : Shards K V) (m : Map K V)
        → Represents s m
        → let i = shard_index hash shard_count k in
          Represents (put_shard i (insert k v (s i)) s) (insert k v m)
    inserted-Represents k v s m r =
        let i = shard_index hash shard_count k in
        put_shard-Represents k (some v) (insert k v (s i)) m (insert k v m) s r
          (λ j. find-insert k j v (s i)) (λ j. find-insert k j v m)

    abbrev Agrees : List Bool × Shards K V → List Bool × Map K V → Type 0
    Agrees a b = (a.0 ≡ b.0) × Represents a.1 b.1

    emplaced-Agrees :
        (k : K) (v : V) (s : Shards K V) (m : Map K V) (c d : Bool)
        → c ≡ d
        → Represents s m
        → let i = shard_index hash shard_count k in
          Agrees
            (one_answer (if c then (false, s) else (true, put_shard i (insert k v (s i)) s)))
            (if d then (false ∷ [], m) else (true ∷ [], insert k v m))
    emplaced-Agrees k v s m true true e r = (refl, r)
    emplaced-Agrees k v s m false false e r = (refl, inserted-Represents k v s m r)
    emplaced-Agrees k v s m true false e r = ground (arith, e)
    emplaced-Agrees k v s m false true e r = ground (arith, e)

    on_shards-Agrees :
        (o : Operation K V) (s : Shards K V) (m : Map K V)
        → Represents s m
        → Agrees (on_shards o s) (on_plain o m)
    unfolding on_shards sharded_assign sharded_emplace sharded_erase sharded_clear exec_on_key
    on_shards-Agrees (assigns k v) s m r = (refl, inserted-Represents k v s m r)
    on_shards-Agrees (emplaces k v) s m r = emplaced-Agrees k v s m _ _ (ap is_some (r k)) r
    on_shards-Agrees (erases k) s m r =
        let i = shard_index hash shard_count k in
        (
          ap (λ x. is_some x ∷ []) (r k),
          put_shard-Represents k none (erase k (s i)) m (erase k m) s r (λ j. find-erase k j (s i))
              (λ j. find-erase k j m),
        )
    on_shards-Agrees clears s m r = (refl, λ j. refl)
    on_shards-Agrees (execs k f) s m r = (
      refl,
      λ j.
          ap (λ x. find j (put_shard i (insert k (f x) (s i)) s (shard_index hash shard_count j)))
            (r k)
          ∙ inserted-Represents k (f (find k m)) s m r j,
    )
      where
        i : ℕ
        i = shard_index hash shard_count k

    -- Whatever the hash and the number of shards, a history of operations on a sharded map that stands
    -- for a plain map gives the same answers as on the plain map, and the maps after it hold the same
    -- value, or none, for every key.
    pub run_shards-Agrees :
        (os : List (Operation K V)) (s : Shards K V) (m : Map K V)
        → Represents s m
        → ((run_shards os s).0 ≡ (run_plain os m).0)
          × ((k : K) → sharded_find k (run_shards os s).1 ≡ find k (run_plain os m).1)
    unfolding run_shards sharded_find
    run_shards-Agrees [] s m r = (refl, r)
    run_shards-Agrees (o ∷ os) s m r =
        let (same, r1) = on_shards-Agrees o s m r in
        let (rest, found) = run_shards-Agrees os (on_shards o s).1 (on_plain o m).1 r1 in
        (
          ap (λ x. x ++ (run_shards os (on_shards o s).1).0) same
              ∙ ap (λ x. (on_plain o m).0 ++ x) rest,
          found,
        )
