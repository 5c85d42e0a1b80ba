-- ===== src/Schema/Checked.antt =====
-- What a composed ability that passes has been checked for: validate_with_expanded_crd of
-- src/resourcemgr/json_schema_utils.cpp.
use text.Mathlib.TextEquality.{eq_iff}
use ability_framework.Prelude.{
  Bool, true, false, Option, none, some, List, [], ◌∷◌, ◌≡◌, refl, ap, ◌∙◌, arith, All, Bool-cases,
  inl, inr,
}
use ability_framework.Json.{
  Json, json_exception, parse_error, invalid_argument, other_exception, undefined, Try, returned,
  failed, ◌>>=◌, is_empty,
}
use ability_framework.Schema.Expand.{expand_intentable}
use ability_framework.Schema.Refs.{value_at, schema_path, sub_ability_crd}
use ability_framework.Schema.Validate.{
  SubAbility, CrDocument, Refusal, Check, catching, and_then, full_schema, manifests_of,
  validate_to_expected, check_sub, check_subs, check_composed, check_implemented, check_full,
  check_schema, expanded_checks, validate_with_expanded_crd,
}

-- A step that has returned.
>>=-returned {ℓ κ} :
    {A : Type ℓ} {B : Type κ} (m : Try A) (f : A → Try B) (b : B)
    → (m >>= f) ≡ returned b
    → (a : A) × (m ≡ returned a) × (f a ≡ returned b)
>>=-returned (returned a) f b h = (a, refl, h)
>>=-returned (failed e) f b h = cc

catching_passed : (c : Check) → catching c ≡ returned none → c ≡ returned none
catching_passed (returned r) h = h
catching_passed (failed json_exception) h = cc
catching_passed (failed parse_error) h = cc
catching_passed (failed invalid_argument) h = cc
catching_passed (failed other_exception) h = cc
catching_passed (failed undefined) h = cc

and_then_passed :
    (r : Option Refusal) (next : Check)
    → and_then r next ≡ returned none
    → (r ≡ none) × (next ≡ returned none)
and_then_passed none next h = (refl, h)
and_then_passed (some r) next h = cc

module _ (validates : Json → Json → Bool) where
  -- Where the manifest of its package has a schema, its expansion has one at the path that is not
  -- empty, and the document satisfies it.
  abbrev pub IsChecked : SubAbility → Type 0
  IsChecked s =
      is_empty (sub_ability_crd s.file) ≡ false
      → (full : Json) × (schema : Json) × (expand_intentable (sub_ability_crd s.file)
          ≡ returned full)
        × (value_at schema_path full ≡ returned schema)
        × (is_empty schema ≡ false)
        × (validates s.document schema ≡ true)

  validate_to_expected_passed :
      (target schema : Json)
      → validate_to_expected validates target schema ≡ none
      → validates target schema ≡ true
  validate_to_expected_passed target schema h = ground (arith, h)

  check_sub_passed :
      (s : SubAbility) (schema : Json) (next : Check)
      → check_sub validates s schema next ≡ returned none
      → (is_empty schema ≡ false) × (validates s.document schema ≡ true) × (next ≡ returned none)
  check_sub_passed s schema next h = elim (Bool-cases (is_empty schema)) [
    | inl e ↦ ground (arith, e, h)
    | inr e ↦
        let (v, n) =
          and_then_passed (validate_to_expected validates s.document schema) next (rw e at h) in
        (e, validate_to_expected_passed s.document schema v, n)
  ]

  check_subs_passed :
      (ss : List SubAbility) → check_subs validates ss ≡ returned none → All IsChecked ss
  unfolding check_subs
  check_subs_passed [] h = tt
  check_subs_passed (s ∷ ss) h = elim (Bool-cases (is_empty (sub_ability_crd s.file))) [
    | inl e ↦ ((λ n. ground (arith, e, n)), check_subs_passed ss (rw e at h))
    | inr e ↦
        let (full, f, g) =
          >>=-returned (expand_intentable (sub_ability_crd s.file))
            (λ j. value_at schema_path j >>= λ k. check_sub validates s k (check_subs validates ss))
            none (rw e at h) in
        let (schema, k, l) =
          >>=-returned (value_at schema_path full)
            (λ j. check_sub validates s j (check_subs validates ss)) none g in
        let (some_schema, v, next) = check_sub_passed s schema (check_subs validates ss) l in
        ((λ n. (full, schema, f, k, some_schema, v)), check_subs_passed ss next)
  ]

  check_schema_passed :
      (cr : CrDocument) (crd schema : Json)
      → check_schema validates cr crd schema ≡ returned none
      → (full : Json) × (is_empty schema ≡ false)
        × (full_schema (manifests_of cr) schema ≡ returned full)
        × (check_full validates cr crd full ≡ returned none)
  check_schema_passed cr crd schema h = elim (Bool-cases (is_empty schema)) [
    | inl e ↦ ground (arith, e, h)
    | inr e ↦
        let (full, f, k) =
          >>=-returned (full_schema (manifests_of cr) schema) (check_full validates cr crd) none
            (rw e at h) in
        (full, e, f, k)
  ]

  check_composed_passed :
      (cr : CrDocument) (next : Check)
      → cr.kind ≡ "ComposeAbility"
      → (check_composed validates cr >>= λ r. and_then r next) ≡ returned none
      → All IsChecked cr.subs
  check_composed_passed cr next kind h =
      let (r, e, g) = >>=-returned (check_composed validates cr) (λ r. and_then r next) none h in
      let (passed, _) = and_then_passed r next g in
      check_subs_passed cr.subs
        (rw ((eq_iff cr.kind "ComposeAbility").1 kind) at (e ∙ ap returned passed))

  -- A composed ability that passes: its schema is there, is not empty and can be expanded, and the
  -- ability satisfies the expanded schema; and for each subability whose package has a manifest with a
  -- schema, what the expansion of that has at the path is not empty, and the subability satisfies it.
  pub validate_with_expanded_crd-IsChecked :
      (cr : CrDocument) (crd : Json)
      → cr.kind ≡ "ComposeAbility"
      → validate_with_expanded_crd validates cr crd ≡ returned none
      → (schema full : Json) × (value_at schema_path crd ≡ returned schema)
        × (is_empty schema ≡ false)
        × (full_schema (manifests_of cr) schema ≡ returned full)
        × (validates cr.document full ≡ true)
        × All IsChecked cr.subs
  unfolding validate_with_expanded_crd expanded_checks
  validate_with_expanded_crd-IsChecked cr crd kind h =
      let (schema, e, g) =
        >>=-returned (value_at schema_path crd) (check_schema validates cr crd) none
          (catching_passed (expanded_checks validates cr crd) h) in
      let (full, some_schema, f, k) = check_schema_passed cr crd schema g in
      let (v, rest) =
        and_then_passed (validate_to_expected validates cr.document full)
          (check_composed validates cr >>= λ r. and_then r (check_implemented validates cr crd))
          k in
      (
        schema,
        full,
        e,
        some_schema,
        f,
        validate_to_expected_passed cr.document full v,
        check_composed_passed cr (check_implemented validates cr crd) kind rest,
      )
