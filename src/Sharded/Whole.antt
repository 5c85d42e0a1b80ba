-- ===== src/Sharded/Whole.antt =====
-- The operations of ShardedLockMap that go over the shards one by one, and the subscript:
-- include/util/concurrent_map.hpp.
use ability_framework.Prelude.{
  ℕ, zero, suc, ◌+◌, Bool, true, false, none, some, List, [], ◌∷◌, ◌++◌, ◌==◌, ◌≡◌, refl, arith,
  if◌then◌else◌, Key, Map, find, insert, length,
}
use ability_framework.Sharded.{Shards, put_shard, shard_index}

module _ {K V : Type 0} where
  -- The shards from an index on, as many as are left.
  shards_from : ℕ → ℕ → Shards K V → List (Map K V)
  shards_from zero i s = []
  shards_from (suc n) i s = s i ∷ shards_from n (suc i) s

  sum_sizes : List (Map K V) → ℕ
  sum_sizes [] = 0
  sum_sizes (m ∷ ms) = length m + sum_sizes ms

  -- size, each shard at its turn.
  sharded_size : ℕ → Shards K V → ℕ
  unfolding shards_from sum_sizes
  sharded_size shard_count s = sum_sizes (shards_from shard_count 0 s)

  all_empty : List (Map K V) → Bool
  all_empty [] = true
  all_empty (m ∷ ms) = let rest = all_empty ms in if length m == 0 then rest else false

  -- empty
  sharded_empty : ℕ → Shards K V → Bool
  unfolding shards_from all_empty
  sharded_empty shard_count s = all_empty (shards_from shard_count 0 s)

  join_shards : List (Map K V) → List (K × V)
  join_shards [] = []
  join_shards (m ∷ ms) = m ++ join_shards ms

  -- for_each: the elements that the function is called on, in order.
  sharded_for_each : ℕ → Shards K V → List (K × V)
  unfolding shards_from join_shards
  sharded_for_each shard_count s = join_shards (shards_from shard_count 0 s)

  length-join : (xs ys : List (K × V)) → length (xs ++ ys) ≡ length xs + length ys
  length-join [] ys = omega arith
  length-join (x ∷ xs) ys = omega (arith, length-join xs ys)

  -- The size is the number of calls that for_each makes.
  length-sharded_for_each :
      (shard_count : ℕ) (s : Shards K V)
      → length (sharded_for_each shard_count s) ≡ sharded_size shard_count s
  unfolding sharded_for_each sharded_size
  length-sharded_for_each shard_count s = of_list (shards_from shard_count 0 s)
    where
      of_list : (ms : List (Map K V)) → length (join_shards ms) ≡ sum_sizes ms
      of_list [] = refl
      of_list (m ∷ ms) = omega (arith, length-join m (join_shards ms), of_list ms)

  -- A map is empty when its size is zero.
  sharded_empty-size :
      (shard_count : ℕ) (s : Shards K V)
      → sharded_empty shard_count s ≡ (sharded_size shard_count s == 0)
  unfolding sharded_empty sharded_size
  sharded_empty-size shard_count s = of_list (shards_from shard_count 0 s)
    where
      of_list : (ms : List (Map K V)) → all_empty ms ≡ (sum_sizes ms == 0)
      of_list [] = refl
      of_list (m ∷ ms) = ground (arith, of_list ms)

-- operator[], which stores the default value of the type under a new key and returns a copy.
module _ {K V : Type 0} ⦃key : Key K⦄ (hash : K → ℕ) (shard_count : ℕ) (fresh : V) where
  sharded_subscript : K → Shards K V → V × Shards K V
  sharded_subscript k s =
      let i = shard_index hash shard_count k in
      elim (find k (s i)) [ some v ↦ (v, s) | none ↦ (fresh, put_shard i (insert k fresh (s i)) s) ]
