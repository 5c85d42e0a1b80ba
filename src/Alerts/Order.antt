-- ===== src/Alerts/Order.antt =====
-- Lists in the order of a query of alerts: src/abilityalertmgr/abilityalert_mgr.cpp.
use ability_framework.Prelude.{
  ◌+◌, Bool-cases, ◌⊎◌, inl, inr, ℕ, zero, suc, ◌≤◌, String, Bool, true, false, ◌&&◌, List, [], ◌∷◌,
  ◌++◌, ◌≡◌, refl, ap, ◌∙◌, arith, if◌then◌else◌, length,
}
use ability_framework.Alerts.{keep, take, put, latest_first}

-- How many elements pass a test.
abbrev pub count {ℓ} : {A : Type ℓ} → (A → Bool) → List A → ℕ
count test [] = 0
count test (x ∷ xs) = (if test x then 1 else 0) + count test xs

abbrev pub drop {ℓ} : {A : Type ℓ} → ℕ → List A → List A
drop zero xs = xs
drop (suc n) [] = []
drop (suc n) (x ∷ xs) = drop n xs

module _ {A : Type 0} (before : String → String → Bool) (time : A → String) where
  -- No element is before the one that follows it.
  abbrev pub IsNext : A → List A → Type 0
  IsNext x [] = Unit {0}
  IsNext x (y ∷ ys) = before (time x) (time y) ≡ false

  abbrev pub IsLatestFirst : List A → Type 0
  IsLatestFirst [] = Unit {0}
  IsLatestFirst (x ∷ xs) = IsNext x xs × IsLatestFirst xs

  pub count-keep :
      (wants test : A → Bool) (xs : List A)
      → count test (keep wants xs) ≡ count (λ x. wants x && test x) xs
  unfolding keep
  count-keep wants test [] = refl
  count-keep wants test (x ∷ xs) = ground (arith, count-keep wants test xs)

  count-put :
      (test : A → Bool) (x : A) (xs : List A)
      → count test (put before time x xs) ≡ (if test x then 1 else 0) + count test xs
  unfolding put
  count-put test x [] = refl
  count-put test x (y ∷ ys) = ground (arith, count-put test x ys)

  pub count-latest_first :
      (test : A → Bool) (xs : List A) → count test (latest_first before time xs) ≡ count test xs
  unfolding latest_first
  count-latest_first test [] = refl
  count-latest_first test (x ∷ xs) =
      count-put test x (latest_first before time xs) ∙ omega (arith, count-latest_first test xs)

  module _ (asymmetric : (s t : String) → before s t ≡ true → before t s ≡ false) where
    IsNext-put :
        (y x : A) (xs : List A)
        → before (time y) (time x) ≡ false
        → IsNext y xs
        → IsNext y (put before time x xs)
    unfolding put
    IsNext-put y x [] e h = e
    IsNext-put y x (z ∷ zs) e h = ground (arith, e, h)

    put-IsLatestFirst :
        (x : A) (xs : List A) → IsLatestFirst xs → IsLatestFirst (put before time x xs)
    unfolding put
    put-IsLatestFirst x [] h = (tt, tt)
    put-IsLatestFirst x (y ∷ ys) (n, h) = elim (Bool-cases (before (time x) (time y))) [
      | inl e ↦
          rw e (IsNext-put y x ys (asymmetric (time x) (time y) e) n, put-IsLatestFirst x ys h)
      | inr e ↦ rw e (e, (n, h))
    ]

    pub latest_first-IsLatestFirst : (xs : List A) → IsLatestFirst (latest_first before time xs)
    unfolding latest_first
    latest_first-IsLatestFirst [] = tt
    latest_first-IsLatestFirst (x ∷ xs) =
        put-IsLatestFirst x (latest_first before time xs) (latest_first-IsLatestFirst xs)

-- A list in two parts, of which the second is empty unless the first is as long as can be.
pub take-drop :
    {A : Type 0} (n : ℕ) (xs : List A)
    → (take n xs ++ drop n xs ≡ xs)
      × (length (take n xs) ≤ n)
      × ((length (take n xs) ≡ n) ⊎ (drop n xs ≡ []))
unfolding take
take-drop zero xs = (refl, omega arith, inl refl)
take-drop (suc n) [] = (refl, omega arith, inr refl)
take-drop (suc n) (x ∷ xs) =
    let (whole, short, full) = take-drop n xs in
    (
      ap (λ r. x ∷ r) whole,
      omega (arith, short),
      elim full [ inl e ↦ inl (ap suc e) | inr e ↦ inr e ],
    )
