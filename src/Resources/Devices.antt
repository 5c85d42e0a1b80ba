-- ===== src/Resources/Devices.antt =====
-- Who holds a device: occupy_device of src/resourcemgr/resource_mgr.cpp.
use ability_framework.Prelude.{
  ℕ, String, Bool, true, Option, some, List, [], ◌∷◌, ◌++◌, ◌≡◌, ◌≢◌, refl, ap, ◌∙◌, arith,
}
use ability_framework.Resources.Tables.{
  ability, device, unique, shared, Ownership, DeviceCr, Resources, get_device_cr,
  judge_device_exist,
}
use ability_framework.Resources.Ownership.{
  select, to_id_str_map, get_device_owner, get_ability_sharers, add_ability_owner, replace_into,
  without_key, row,
}
use ability_framework.Resources.Occupy.{
  ok, RemoteRequest, occupy_shared, occupy_local, occupy_device_at, occupy_device,
}
use ability_framework.Resources.Selected.{drop_parent, select-replace_into}

-- A row for an ability is in no answer about a device.
select-device :
    (n : Ownership) (d : ℕ) (os : List Ownership)
    → n.parent_kind ≡ ability
    → select device d device unique (replace_into n os) ≡ select device d device unique os
unfolding select replace_into without_key
select-device n d [] e = ground (arith, e)
select-device n d (o ∷ os) e = ground (arith, e, select-device n d os e)

owners_after :
    (p : ℕ) (addr : String) (d : ℕ) (os : List Ownership)
    → select ability d ability unique (add_ability_owner p d addr os)
      ≡ drop_parent p (select ability d ability unique os) ++ (p, addr) ∷ []
unfolding add_ability_owner
owners_after p addr d os = select-replace_into p d addr unique unique d os ∙ ground arith

owners_after_both :
    (p q : ℕ) (here there : String) (xs : List (ℕ × String))
    → p ≢ q
    → drop_parent q (xs ++ (p, here) ∷ []) ++ (q, there) ∷ []
      ≡ drop_parent q xs ++ ((p, here) ∷ (q, there) ∷ [])
unfolding drop_parent
owners_after_both p q here there [] n = ground arith
owners_after_both p q here there ((k, a) ∷ xs) n =
    ground (arith, owners_after_both p q here there xs n)

-- No row of the table tells of an owner of the kind "device" or of a sharer.
abbrev pub IsUnprotected : ℕ → List Ownership → Type 0
IsUnprotected d os =
    (select device d device unique os ≡ []) × (select ability d ability shared os ≡ [])

module _ (is_local : String → Bool) (post : RemoteRequest → Option Bool) where
  -- The device is known and on this machine.
  abbrev pub IsHere : ℕ → Resources → Type 0
  IsHere d r = (cr : DeviceCr) × (get_device_cr d r ≡ some cr) × (is_local cr.position ≡ true)

  occupy_device_here :
      (p : ℕ) (addr : String) (d : ℕ) (r : Resources)
      → IsHere d r
      → IsUnprotected d r.ownership
      → occupy_device is_local post p addr d unique r
        ≡ (ok, record r { ownership = add_ability_owner p d addr r.ownership })
  unfolding occupy_device occupy_device_at occupy_local occupy_shared get_device_owner
      get_ability_sharers judge_device_exist to_id_str_map
  occupy_device_here p addr d r (cr, known, here) (owners, sharers) =
      rw (known, here, owners, sharers) refl

  add_ability_owner-IsUnprotected :
      (p : ℕ) (addr : String) (d : ℕ) (os : List Ownership)
      → IsUnprotected d os
      → IsUnprotected d (add_ability_owner p d addr os)
  unfolding add_ability_owner drop_parent
  add_ability_owner-IsUnprotected p addr d os (owners, sharers) = (
    select-device (row p d ability addr unique) d os refl ∙ owners,
    select-replace_into p d addr unique shared d os ∙ ground (arith, sharers),
  )

  -- While the table has no sharer of a known local device, and no row that has a device for parent
  -- and for child (the program writes none), two parents in turn take the device as its only owner:
  -- the second is told so too, and both rows stand in the table after any others.
  pub occupy_device-twice :
      (p q : ℕ) (here there : String) (d : ℕ) (r : Resources)
      → IsHere d r
      → IsUnprotected d r.ownership
      → p ≢ q
      → let r' = (occupy_device is_local post p here d unique r).1 in
        let (res, r'') = occupy_device is_local post q there d unique r' in
        (res ≡ ok)
        × (select ability d ability unique r''.ownership
            ≡ drop_parent q (drop_parent p (select ability d ability unique r.ownership))
              ++ ((p, here) ∷ (q, there) ∷ []))
  unfolding get_device_cr
  occupy_device-twice p q here there d r known free n =
      let os = r.ownership in
      let taken = add_ability_owner p d here os in
      rw (occupy_device_here p here d r known free) rw
        (occupy_device_here q there d (record r { ownership = taken }) known
          (add_ability_owner-IsUnprotected p here d os free))
        (
          refl,
          owners_after q there d taken
              ∙ ap (λ xs. drop_parent q xs ++ (q, there) ∷ []) (owners_after p here d os)
              ∙ owners_after_both p q here there
                  (drop_parent p (select ability d ability unique os)) n,
        )
