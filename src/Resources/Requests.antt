-- ===== src/Resources/Requests.antt =====
-- Requests to hold abilities and devices, and what they leave alone: src/resourcemgr/resource_mgr.cpp.
use ability_framework.Prelude.{
  ℕ, String, Bool, Option, none, some, List, [], ◌∷◌, ◌++◌, ◌≡◌, ◌≢◌, refl, ap, ◌∙◌, arith,
}
use ability_framework.Resources.Tables.{
  Kind, ability, device, OwnershipMode, unique, shared, Ownership, Resources,
}
use ability_framework.Resources.Ownership.{
  select, get_ability_sharers, get_ability_owner, get_device_owner, replace_into, row,
  add_ability_sharers, add_ability_owner, remove_ownership, remove_ability_sharer,
  remove_ability_owner, remove_device_sharer, remove_device_owner,
}
use ability_framework.Resources.Occupy.{
  Method, occupy, unoccupy, RemoteRequest, occupy_shared, occupy_local, occupy_at, occupy_device_at,
  remove_ability, remove_device, occupy_ability, occupy_device, unoccupy_ability, unoccupy_device,
}
use ability_framework.Resources.Selected.{
  select-replace_into, select-remove_ownership, select-remove_other,
}

append_nil : (xs : List (ℕ × String)) → xs ++ [] ≡ xs
append_nil [] = refl
append_nil (x ∷ xs) = ap (λ r. x ∷ r) (append_nil xs)

-- What the queries for one ability find does not change by a write for another.
module _ (child c : ℕ) (other : c ≢ child) (m : OwnershipMode) where
  replace_other :
      (p : ℕ) (addr : String) (m' : OwnershipMode) (os : List Ownership)
      → select ability child ability m (replace_into (row p c ability addr m') os)
        ≡ select ability child ability m os
  replace_other p addr m' os =
      select-replace_into p c addr m' m child os
      ∙ ground (arith, append_nil (select ability child ability m os))

  remove_other :
      (p : ℕ) (m' : OwnershipMode) (os : List Ownership)
      → select ability child ability m (remove_ownership p c ability m' os)
        ≡ select ability child ability m os
  remove_other p m' os = select-remove_ownership p c child m' m os ∙ ground arith

  occupy_shared_other :
      (p : ℕ) (addr : String) (mode : OwnershipMode) (os : List Ownership)
      → select ability child ability m (occupy_shared p addr c mode (get_ability_sharers c os) os).1
        ≡ select ability child ability m os
  unfolding occupy_shared add_ability_owner add_ability_sharers
  occupy_shared_other p addr unique os = ground (arith, replace_other p addr unique os)
  occupy_shared_other p addr shared os = ground (arith, replace_other p addr shared os)

  occupy_local_other :
      (o : Option (ℕ × String)) (p : ℕ) (addr : String) (mode : OwnershipMode) (os : List Ownership)
      → select ability child ability m (occupy_local o p addr c mode os).1
        ≡ select ability child ability m os
  unfolding occupy_local
  occupy_local_other none p addr mode os = occupy_shared_other p addr mode os
  occupy_local_other (some (q, a)) p addr mode os = refl

  remove_ability_other :
      (p : ℕ) (mode : OwnershipMode) (os : List Ownership)
      → select ability child ability m (remove_ability p c mode os)
        ≡ select ability child ability m os
  unfolding remove_ability remove_ability_owner remove_ability_sharer
  remove_ability_other p unique os = remove_other p unique os
  remove_ability_other p shared os = remove_other p shared os

remove_device_other :
    (child : ℕ) (m : OwnershipMode) (p c : ℕ) (mode : OwnershipMode) (os : List Ownership)
    → select ability child ability m (remove_device p c mode os) ≡ select ability child ability m os
unfolding remove_device remove_device_owner remove_device_sharer
remove_device_other child m p c unique os = select-remove_other p c child unique m os
remove_device_other child m p c shared os = select-remove_other p c child shared m os

-- A request that arrives, by the handler that serves it.
pub record OccupyRequest : Type 0 where
  pub method : Method
  pub kind : Kind
  pub parent : ℕ
  pub position : String
  pub child : ℕ
  pub mode : OwnershipMode

module _ (is_local : String → Bool) (post : RemoteRequest → Option Bool) where
  unfoldable pub handle : Method → Kind → ℕ → String → ℕ → OwnershipMode → Resources → Resources
  handle occupy ability p addr c mode r = (occupy_ability is_local post p addr c mode r).1
  handle occupy device p addr c mode r = (occupy_device is_local post p addr c mode r).1
  handle unoccupy ability p addr c mode r = (unoccupy_ability is_local post p c mode r).1
  handle unoccupy device p addr c mode r = (unoccupy_device is_local post p c mode r).1

  unfoldable pub run_requests : List OccupyRequest → Resources → Resources
  run_requests [] r = r
  run_requests (q ∷ qs) r =
      run_requests qs (handle q.method q.kind q.parent q.position q.child q.mode r)

  -- Whatever comes of a request, only the table of ownership changes.
  pub handle-ownership :
      (method : Method) (kind : Kind) (p : ℕ) (addr : String) (c : ℕ) (mode : OwnershipMode)
      (r : Resources)
      → record r { ownership = (handle method kind p addr c mode r).ownership }
        ≡ handle method kind p addr c mode r
  unfolding handle occupy_ability occupy_device unoccupy_ability unoccupy_device occupy_at
      occupy_device_at
  handle-ownership occupy ability p addr c mode r = ground arith
  handle-ownership occupy device p addr c mode r = ground arith
  handle-ownership unoccupy ability p addr c mode r = ground arith
  handle-ownership unoccupy device p addr c mode r = ground arith

  pub other_request :
      (method : Method) (kind : Kind) (p : ℕ) (addr : String) (c child : ℕ) (mode : OwnershipMode)
      (r : Resources)
      → c ≢ child
      → (m : OwnershipMode)
      → select ability child ability m (handle method kind p addr c mode r).ownership
        ≡ select ability child ability m r.ownership
  unfolding handle occupy_ability occupy_device unoccupy_ability unoccupy_device occupy_at
      occupy_device_at
  other_request occupy ability p addr c child mode r n m = ground (
    arith,
    occupy_local_other child c n m (get_ability_owner c r.ownership) p addr mode r.ownership,
  )
  other_request occupy device p addr c child mode r n m = ground (
    arith,
    occupy_local_other child c n m (get_device_owner c r.ownership) p addr mode r.ownership,
  )
  other_request unoccupy ability p addr c child mode r n m =
      ground (arith, remove_ability_other child c n m p mode r.ownership)
  other_request unoccupy device p addr c child mode r n m =
      ground (arith, remove_device_other child m p c mode r.ownership)
