-- ===== src/Resources/Exclusive.antt =====
-- Histories of requests to hold abilities and devices: src/resourcemgr/resource_mgr.cpp.
use ability_framework.Prelude.{
  ℕ, String, Bool, true, false, Option, some, List, [], ◌∷◌, ◌==◌, ◌≡◌, ◌≢◌, refl, sym, ap, subst,
  ◌∙◌, arith, if◌then◌else◌, All, ==_iff,
}
use ability_framework.Resources.Tables.{
  Kind, ability, device, OwnershipMode, unique, shared, same_kind, Ownership, AbilitySpec,
  Resources, judge_ability_exist, resolve_ability_cr_by_id, get_ability_cr,
}
use ability_framework.Resources.Ownership.{select, get_ability_sharers, get_ability_owner}
use ability_framework.Resources.Occupy.{
  Method, occupy, unoccupy, RemoteRequest, occupy_local, occupy_at, spec_of, remove_ability,
  occupy_ability, unoccupy_ability,
}
use ability_framework.Resources.Holds.{
  Hold, hold_of, grant, release, IsExclusive, occupy_local-Leaves, remove_ability-Leaves,
}
use ability_framework.Resources.Requests.{
  OccupyRequest, handle, run_requests, handle-ownership, other_request,
}

-- What a request does to the hold of one ability.
abbrev pub hold_step : ℕ → OccupyRequest → Hold → Hold
hold_step child q hold =
    if q.child == child
    then elim (q.method) [
      | occupy ↦ (grant q.parent q.position q.mode hold).1
      | unoccupy ↦ release q.parent q.mode hold
    ]
    else hold

unfoldable pub run_hold : ℕ → List OccupyRequest → Hold → Hold
run_hold child [] hold = hold
run_hold child (q ∷ qs) hold = run_hold child qs (hold_step child q hold)

-- No request for a device names the ability.
abbrev pub SparesAbility : ℕ → OccupyRequest → Type 0
SparesAbility child q = same_kind q.kind device ≡ true → q.child ≢ child

module _ (is_local : String → Bool) (post : RemoteRequest → Option Bool) where
  -- The ability is known, and its specification is for this machine.
  abbrev pub IsLocal : ℕ → Resources → Type 0
  IsLocal c r =
      (spec : AbilitySpec) × (judge_ability_exist c r ≡ true)
      × (spec_of (resolve_ability_cr_by_id c r) ≡ some spec)
      × (is_local spec.position ≡ true)

  occupy_ability_local :
      (p : ℕ) (addr : String) (c : ℕ) (mode : OwnershipMode) (r : Resources)
      → IsLocal c r
      → occupy_ability is_local post p addr c mode r ≡ (
          let (res, os) =
            occupy_local (get_ability_owner c r.ownership) p addr c mode r.ownership in
          (res, record r { ownership = os }))
  unfolding occupy_ability occupy_at
  occupy_ability_local p addr c mode r (spec, e, s, l) = rw (e, s, l) refl

  unoccupy_ability_local :
      (p c : ℕ) (mode : OwnershipMode) (r : Resources)
      → IsLocal c r
      → unoccupy_ability is_local post p c mode r
        ≡ (true, record r { ownership = remove_ability p c mode r.ownership })
  unfolding unoccupy_ability
  unoccupy_ability_local p c mode r (spec, e, s, l) = rw (e, s, l) refl

  -- Occupying a known local ability that has one owner and no sharers, or no owner, answers what a
  -- readers-writer lock would answer, and leaves the ability held as that lock would be, again with
  -- one owner and no sharers, or no owner.
  pub occupy_ability_refines :
      (p : ℕ) (addr : String) (c : ℕ) (mode : OwnershipMode) (r : Resources)
      → IsLocal c r
      → IsExclusive c r.ownership
      → let (res, r') = occupy_ability is_local post p addr c mode r in
        let (answer, hold) = grant p addr mode (hold_of c r.ownership) in
        (res ≡ answer) × (hold_of c r'.ownership ≡ hold) × IsExclusive c r'.ownership
  unfolding get_ability_owner get_ability_sharers
  occupy_ability_refines p addr c mode r l h =
      rw (occupy_ability_local p addr c mode r l) (occupy_local-Leaves p addr c r.ownership mode h)

  pub handle-IsLocal :
      (method : Method) (kind : Kind) (p : ℕ) (addr : String) (c d : ℕ) (mode : OwnershipMode)
      (r : Resources)
      → IsLocal c r
      → IsLocal c (handle is_local post method kind p addr d mode r)
  unfolding judge_ability_exist resolve_ability_cr_by_id get_ability_cr
  handle-IsLocal method kind p addr c d mode r l =
      subst (IsLocal c) (handle-ownership is_local post method kind p addr d mode r) l

  abbrev Follows : ℕ → Hold → List Ownership → Type 0
  Follows child hold os = (hold_of child os ≡ hold) × IsExclusive child os

  -- A table in which the same rows are found for the ability.
  same_rows :
      (child : ℕ) (os os' : List Ownership)
      → ((m : OwnershipMode)
          → select ability child ability m os' ≡ select ability child ability m os)
      → IsExclusive child os
      → Follows child (hold_of child os) os'
  unfolding get_ability_owner get_ability_sharers
  same_rows child os os' same h = rw (same unique, same shared) (refl, h)

  own_request :
      (method : Method) (p : ℕ) (addr : String) (c : ℕ) (mode : OwnershipMode) (r : Resources)
      → IsLocal c r
      → IsExclusive c r.ownership
      → Follows c
          (elim method [
            | occupy ↦ (grant p addr mode (hold_of c r.ownership)).1
            | unoccupy ↦ release p mode (hold_of c r.ownership)
          ])
          (handle is_local post method ability p addr c mode r).ownership
  unfolding handle get_ability_owner get_ability_sharers
  own_request occupy p addr c mode r l h =
      let (_, hold, exclusive) = occupy_ability_refines p addr c mode r l h in (hold, exclusive)
  own_request unoccupy p addr c mode r l h =
      let (_, hold, exclusive) = remove_ability-Leaves p addr c r.ownership mode h in
      subst
        (λ (x : Bool × Resources). Follows c (release p mode (hold_of c r.ownership)) x.1.ownership)
        (sym (unoccupy_ability_local p c mode r l)) (hold, exclusive)

  Follows-step :
      (method : Method) (kind : Kind) (p : ℕ) (addr : String) (c child : ℕ) (mode : OwnershipMode)
      (r : Resources)
      → IsLocal child r
      → (same_kind kind device ≡ true → c ≢ child)
      → IsExclusive child r.ownership
      → Follows child
          (if c == child
            then elim method [
              | occupy ↦ (grant p addr mode (hold_of child r.ownership)).1
              | unoccupy ↦ release p mode (hold_of child r.ownership)
            ]
            else hold_of child r.ownership)
          (handle is_local post method kind p addr c mode r).ownership
  Follows-step method kind p addr c child mode r l spares h = by_child (c == child) refl kind spares
    where
      after : Hold
      after = elim method [
        | occupy ↦ (grant p addr mode (hold_of child r.ownership)).1
        | unoccupy ↦ release p mode (hold_of child r.ownership)
      ]

      by_child :
          (b : Bool)
          → (c == child) ≡ b
          → (kind : Kind) → (same_kind kind device ≡ true → c ≢ child)
          → Follows child
              (if b then after else hold_of child r.ownership)
              (handle is_local post method kind p addr c mode r).ownership
      by_child true e ability spares =
          subst
            (λ x.
              Follows child after (handle is_local post method ability p addr x mode r).ownership)
            (sym ((==_iff c child).0 e)) (own_request method p addr child mode r l h)
      by_child true e device spares = absurd (spares refl ((==_iff c child).0 e))
      by_child false e kind spares =
          same_rows child r.ownership (handle is_local post method kind p addr c mode r).ownership
            (other_request is_local post method kind p addr c child mode r
              (λ same. ground (arith, e, same)))
            h

  -- Over any history of requests to occupy and to give up abilities and devices, of which no request
  -- for a device names it, a known local ability that has one owner and no sharers, or no owner, at
  -- the start has so at the end, and is held as a readers-writer lock would be after the requests
  -- that name it.
  pub run_requests-hold :
      (child : ℕ) (requests : List OccupyRequest) (r : Resources)
      → IsLocal child r
      → All (SparesAbility child) requests
      → IsExclusive child r.ownership
      → let r' = run_requests is_local post requests r in
        (hold_of child r'.ownership ≡ run_hold child requests (hold_of child r.ownership))
        × IsExclusive child r'.ownership
  unfolding run_requests run_hold get_ability_owner get_ability_sharers
  run_requests-hold child [] r l spares h = (refl, h)
  run_requests-hold child (q ∷ qs) r l spares h =
      let (hold, exclusive) =
        Follows-step q.method q.kind q.parent q.position q.child child q.mode r l spares.0 h in
      let (held, still) =
        run_requests-hold child qs
          (handle is_local post q.method q.kind q.parent q.position q.child q.mode r)
          (handle-IsLocal q.method q.kind q.parent q.position child q.child q.mode r l) spares.1
          exclusive in
      (held ∙ ap (run_hold child qs) hold, still)
