-- ===== src/Prelude/Maps.antt =====
-- std::map and std::unordered_map as association lists. The order of the list stands for the order
-- in which the container is iterated, which the standard leaves open for the unordered one.
use mathlib.Core.Path.{◌≡◌, refl, subst}
use mathlib.Core.Logic.{◌↔◌}
use mathlib.Core.Bool.{Bool, true, false}
use mathlib.Core.Option.{Option, none, some, some-injective}
use mathlib.Core.List.{List, [], ◌∷◌}
use native.Mathlib.Omega.{arith}
use Prim.Native.Nat.{ℕ}
use Prim.Native.String.{String}
use text.Mathlib.Text.{◌==◌ as str_eq}
use text.Mathlib.TextEquality.{eq_iff}
use ability_framework.Prelude.Lists.{All}
use ability_framework.Prelude.Tests.{◌==◌, ==_iff, if◌then◌else◌}

-- Keys with a decidable equality: uuids (numbers) and names (texts).
pub record Key {ℓ} (K : Type ℓ) : Type ℓ where
  pub same : K → K → Bool
  pub same_iff : (a b : K) → (same a b ≡ true) ↔ (a ≡ b)

instance abbrev pub uuid_key : Key ℕ
uuid_key = record { same = ◌==◌; same_iff = ==_iff }

instance abbrev pub name_key : Key String
name_key = record { same = str_eq; same_iff = eq_iff }

abbrev pub Map {ℓ κ} : Type ℓ → Type κ → Type (ℓ ⊔ κ)
Map K V = List (K × V)

module _ {ℓ κ} {K : Type ℓ} ⦃key : Key K⦄ {V : Type κ} where
  unfoldable pub find : K → Map K V → Option V
  find k [] = none
  find k ((j, v) ∷ m) = if key.same j k then some v else find k m

  unfoldable pub insert : K → V → Map K V → Map K V
  insert k v [] = (k, v) ∷ []
  insert k v ((j, w) ∷ m) = if key.same j k then (k, v) ∷ m else (j, w) ∷ insert k v m

  unfoldable pub erase : K → Map K V → Map K V
  erase k [] = []
  erase k ((j, v) ∷ m) = let rest = erase k m in if key.same j k then rest else (j, v) ∷ rest

  pub find-insert :
      (k j : K) (v : V) (m : Map K V)
      → find j (insert k v m) ≡ (if key.same k j then some v else find j m)
  unfolding find insert
  find-insert k j v [] = refl
  find-insert k j v ((i, w) ∷ m) =
      ground (arith, key.same_iff k j, key.same_iff i k, key.same_iff i j, find-insert k j v m)

  pub find-erase :
      (k j : K) (m : Map K V) → find j (erase k m) ≡ (if key.same k j then none else find j m)
  unfolding find erase
  find-erase k j [] = ground arith
  find-erase k j ((i, w) ∷ m) =
      ground (arith, key.same_iff k j, key.same_iff i k, key.same_iff i j, find-erase k j m)

-- What holds of every value holds of the one that is found.
pub find-All {ℓ κ μ} :
    {K : Type ℓ} ⦃key : Key K⦄ {V : Type κ} (P : V → Type μ) (k : K) (v : V) (m : Map K V)
    → All (λ e. P e.1) m
    → find k m ≡ some v
    → P v
unfolding find
find-All P k v [] h f = ground (arith, f)
find-All ⦃key⦄ P k v ((j, w) ∷ m) h f = by_same (key.same j k) f (find-All P k v m h.1)
  where
    by_same :
        (c : Bool) → (if c then some w else find k m) ≡ some v → (find k m ≡ some v → P v) → P v
    by_same true e rest = subst P (some-injective _ _ e) h.0
    by_same false e rest = rest e

pub insert-All {ℓ κ μ} :
    {K : Type ℓ} ⦃key : Key K⦄ {V : Type κ} (P : V → Type μ) (k : K) (v : V) (m : Map K V)
    → P v
    → All (λ e. P e.1) m
    → All (λ e. P e.1) (insert k v m)
unfolding insert
insert-All P k v [] p h = (p, tt)
insert-All ⦃key⦄ P k v ((j, w) ∷ m) p h = by_same (key.same j k) (insert-All P k v m p h.1)
  where
    by_same :
        (c : Bool)
        → All (λ e. P e.1) (insert k v m)
        → All (λ e. P e.1) (if c then (k, v) ∷ m else (j, w) ∷ insert k v m)
    by_same true rest = (p, h.1)
    by_same false rest = (h.0, rest)

pub same_refl {ℓ} : {K : Type ℓ} ⦃key : Key K⦄ (k : K) → key.same k k ≡ true
same_refl ⦃key⦄ k = (key.same_iff k k).1 refl

-- The value of a lookup, tested: `contains`.
abbrev pub is_some {ℓ} : {A : Type ℓ} → Option A → Bool
is_some none = false
is_some (some a) = true
