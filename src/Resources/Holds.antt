-- ===== src/Resources/Holds.antt =====
-- Who holds an ability, as the table CROwnership of src/resourcemgr/resource_mgr.cpp tells it.
use ability_framework.Prelude.{
  ℕ, String, Bool, true, false, Option, none, some, List, [], ◌∷◌, ◌++◌, ◌==◌, ◌≡◌, refl, sym, ap,
  subst, ◌∙◌, arith, if◌then◌else◌, Map, find, insert, erase, uuid_key, is_some,
}
use ability_framework.Resources.Tables.{
  ability, OwnershipMode, unique, shared, same_mode, Ownership,
}
use ability_framework.Resources.Ownership.{
  select, to_id_str_map, first_row, get_ability_sharers, get_ability_owner, replace_into, row,
  add_ability_sharers, add_ability_owner, remove_ownership, remove_ability_sharer,
  remove_ability_owner,
}
use ability_framework.Resources.Occupy.{
  Outcome, ok, unexpected, sharer_of_unique, owner_of_unique, owner_of_shared, is_empty,
  occupy_owned, occupy_shared, occupy_local, remove_ability,
}
use ability_framework.Resources.Selected.{
  drop_parent, added, select-replace_into, select-remove_ownership, to_id_str_map-drop_parent,
  to_id_str_map-append, drop_parent_absent,
}

-- One owner, or sharers by their address (none of them, when the ability is free).
pub data Hold : Type 0 where
  owned : ℕ → String → Hold
  shared_by : Map ℕ String → Hold

abbrev pub hold_from : Option (ℕ × String) → Map ℕ String → Hold
hold_from none sharers = shared_by sharers
hold_from (some (p, addr)) sharers = owned p addr

-- The hold that a table stands for.
abbrev pub hold_of : ℕ → List Ownership → Hold
hold_of child os = hold_from (get_ability_owner child os) (get_ability_sharers child os)

-- A request to hold, granted as a readers-writer lock grants it: an owner may ask again in any mode and
-- keeps what it has, nobody else is let in beside an owner, a writer is not let in beside readers, and
-- a reader is let in beside readers.
abbrev pub grant : ℕ → String → OwnershipMode → Hold → Outcome × Hold
grant p addr unique (owned q a) = (if q == p then ok else unexpected owner_of_unique, owned q a)
grant p addr shared (owned q a) = (if q == p then ok else unexpected sharer_of_unique, owned q a)
grant p addr unique (shared_by m) =
    if is_empty m then (ok, owned p addr) else (unexpected owner_of_shared, shared_by m)
grant p addr shared (shared_by m) =
    (ok, if is_some (find p m) then shared_by m else shared_by (insert p addr m))

abbrev pub release : ℕ → OwnershipMode → Hold → Hold
release p unique (owned q a) = if q == p then shared_by [] else owned q a
release p shared (owned q a) = owned q a
release p unique (shared_by m) = shared_by m
release p shared (shared_by m) = shared_by (erase p m)

-- The rows of one owner and of none that share, or of no owner.
abbrev pub AreExclusive : List (ℕ × String) → List (ℕ × String) → Type 0
AreExclusive [] sharers = Unit {0}
AreExclusive (o ∷ []) [] = Unit {0}
AreExclusive _ _ = ⊥

abbrev pub IsExclusive : ℕ → List Ownership → Type 0
IsExclusive child os =
    AreExclusive (select ability child ability unique os) (select ability child ability shared os)

-- The hold of the rows that two queries find.
abbrev pub hold_of_rows : List (ℕ × String) → List (ℕ × String) → Hold
hold_of_rows owners sharers = hold_from (first_row owners) (to_id_str_map sharers [])

-- What a step leaves: the answer, the hold, and whether it is still exclusive.
abbrev pub Leaves : Outcome × Hold → Outcome → List (ℕ × String) → List (ℕ × String) → Type 0
Leaves (answer, hold) res owners sharers =
    (res ≡ answer) × (hold_of_rows owners sharers ≡ hold) × AreExclusive owners sharers

is_empty-insert : (p : ℕ) (a : String) (m : Map ℕ String) → is_empty (insert p a m) ≡ false
unfolding insert
is_empty-insert p a [] = refl
is_empty-insert p a ((k, b) ∷ m) = ground arith

is_empty-to_id_str_map :
    (rows : List (ℕ × String)) (m : Map ℕ String)
    → is_empty m ≡ false
    → is_empty (to_id_str_map rows m) ≡ false
unfolding to_id_str_map
is_empty-to_id_str_map [] m h = h
is_empty-to_id_str_map ((q, a) ∷ rows) m h =
    is_empty-to_id_str_map rows (insert q a m) (is_empty-insert q a m)

module _ (p : ℕ) (addr : String) (c : ℕ) (os : List Ownership) where
  after_replace :
      (m' m : OwnershipMode) (xs : List (ℕ × String))
      → select ability c ability m os ≡ xs
      → select ability c ability m (replace_into (row p c ability addr m') os)
        ≡ drop_parent p xs ++ added (same_mode m' m) p addr
  after_replace m' m xs e = select-replace_into p c addr m' m c os ∙ ground (arith, e)

  after_remove :
      (m' m : OwnershipMode) (xs : List (ℕ × String))
      → select ability c ability m os ≡ xs
      → select ability c ability m (remove_ownership p c ability m' os)
        ≡ (if same_mode m' m then drop_parent p xs else xs)
  after_remove m' m xs e = select-remove_ownership p c c m' m os ∙ ground (arith, e)

  -- The table after a step, by what its two queries find.
  Leaves-by :
      (answer : Outcome × Hold) (res : Outcome) (os' : List Ownership) (xs ys : List (ℕ × String))
      → select ability c ability unique os' ≡ xs
      → select ability c ability shared os' ≡ ys
      → Leaves answer res xs ys
      → Leaves answer res
          (select ability c ability unique os')
          (select ability c ability shared os')
  Leaves-by answer res os' xs ys e f l =
      subst (λ x. Leaves answer res x (select ability c ability shared os')) (sym e)
        (subst (λ y. Leaves answer res xs y) (sym f) l)

  abbrev LeavesTable : Outcome × Hold → Outcome × List Ownership → Type 0
  LeavesTable answer (res, os') =
      Leaves answer res (select ability c ability unique os') (select ability c ability shared os')

  abbrev Granted : OwnershipMode → Hold → Outcome × List Ownership → Type 0
  Granted mode hold r = LeavesTable (grant p addr mode hold) r

  Granted-unique :
      (ys : List (ℕ × String))
      → select ability c ability unique os ≡ []
      → select ability c ability shared os ≡ ys
      → Granted unique (hold_of_rows [] ys) (occupy_shared p addr c unique (to_id_str_map ys []) os)
  unfolding occupy_shared add_ability_owner drop_parent to_id_str_map
  Granted-unique [] e f =
      Leaves-by (ok, owned p addr) ok (add_ability_owner p c addr os) ((p, addr) ∷ []) []
        (after_replace unique unique [] e) (after_replace unique shared [] f) (refl, refl, tt)
  Granted-unique ((q, a) ∷ ys) e f =
      let m : Map ℕ String = to_id_str_map ys (insert q a []) in
      rw (is_empty-to_id_str_map ys (insert q a []) (is_empty-insert q a [])) (
        Leaves-by (unexpected owner_of_shared, shared_by m) (unexpected owner_of_shared) os []
          ((q, a) ∷ ys) e f (refl, refl, tt))

  Granted-shared :
      (ys : List (ℕ × String))
      → select ability c ability unique os ≡ []
      → select ability c ability shared os ≡ ys
      → Granted shared (hold_of_rows [] ys) (occupy_shared p addr c shared (to_id_str_map ys []) os)
  unfolding occupy_shared add_ability_sharers drop_parent
  Granted-shared ys e f = by_found (find p (to_id_str_map ys [])) refl
    where
      by_found :
          (o : Option String)
          → find p (to_id_str_map ys []) ≡ o
          → LeavesTable
              (
                ok,
                if is_some o
                    then shared_by (to_id_str_map ys [])
                    else shared_by (insert p addr (to_id_str_map ys [])),
              )
              (if is_some o then (ok, os) else (ok, add_ability_sharers p c addr os))
      by_found (some a) g =
          Leaves-by (ok, shared_by (to_id_str_map ys [])) ok os [] ys e f (refl, refl, tt)
      by_found none g =
          Leaves-by (ok, shared_by (insert p addr (to_id_str_map ys []))) ok
            (add_ability_sharers p c addr os) [] (ys ++ (p, addr) ∷ [])
            (after_replace shared unique [] e)
            (after_replace shared shared ys f
              ∙ ap (λ x. x ++ (p, addr) ∷ []) (drop_parent_absent p ys [] g))
            (refl, ap shared_by (to_id_str_map-append ys p addr []), tt)

  -- The local part of occupy_ability on rows that are exclusive.
  granted :
      (mode : OwnershipMode) (xs ys : List (ℕ × String))
      → select ability c ability unique os ≡ xs
      → select ability c ability shared os ≡ ys
      → AreExclusive xs ys
      → Granted mode (hold_of_rows xs ys) (occupy_local (first_row xs) p addr c mode os)
  unfolding occupy_local get_ability_sharers occupy_owned
  granted unique [] ys e f h = rw f (Granted-unique ys e f)
  granted shared [] ys e f h = rw f (Granted-shared ys e f)
  granted unique ((q, a) ∷ []) [] e f h =
      Leaves-by (grant p addr unique (owned q a)) (occupy_owned p unique q) os ((q, a) ∷ []) [] e f
        (refl, refl, tt)
  granted shared ((q, a) ∷ []) [] e f h =
      Leaves-by (grant p addr shared (owned q a)) (occupy_owned p shared q) os ((q, a) ∷ []) [] e f
        (refl, refl, tt)
  granted mode ((q, a) ∷ []) (y ∷ ys) e f h = absurd h
  granted mode (x ∷ x' ∷ xs) ys e f h = absurd h

  -- Occupying an ability is what the abstract grant says, and leaves the table exclusive.
  pub occupy_local-Leaves :
      (mode : OwnershipMode)
      → IsExclusive c os
      → Granted mode (hold_of c os) (occupy_local (get_ability_owner c os) p addr c mode os)
  unfolding get_ability_owner get_ability_sharers
  occupy_local-Leaves mode h =
      granted mode (select ability c ability unique os) (select ability c ability shared os) refl
        refl h

  abbrev Released : OwnershipMode → Hold → List Ownership → Type 0
  Released mode hold os' = LeavesTable (ok, release p mode hold) (ok, os')

  released :
      (mode : OwnershipMode) (xs ys : List (ℕ × String))
      → select ability c ability unique os ≡ xs
      → select ability c ability shared os ≡ ys
      → AreExclusive xs ys
      → Released mode (hold_of_rows xs ys) (remove_ability p c mode os)
  unfolding remove_ability remove_ability_owner remove_ability_sharer drop_parent to_id_str_map
      erase
  released unique [] ys e f h =
      Leaves-by (ok, shared_by (to_id_str_map ys [])) ok (remove_ability_owner p c os) [] ys
        (after_remove unique unique [] e) (after_remove unique shared ys f) (refl, refl, tt)
  released shared [] ys e f h =
      Leaves-by (ok, shared_by (erase p (to_id_str_map ys []))) ok (remove_ability_sharer p c os) []
        (drop_parent p ys) (after_remove shared unique [] e) (after_remove shared shared ys f)
        (refl, ap shared_by (to_id_str_map-drop_parent p ys []), tt)
  released unique ((q, a) ∷ []) [] e f h =
      Leaves-by (ok, release p unique (owned q a)) ok (remove_ability_owner p c os)
        (if q == p then [] else (q, a) ∷ []) [] (after_remove unique unique ((q, a) ∷ []) e)
        (after_remove unique shared [] f) (by_same (q == p))
    where
      by_same :
          (b : Bool)
          → Leaves (ok, if b then shared_by [] else owned q a) ok (if b then [] else (q, a) ∷ []) []
      by_same true = (refl, refl, tt)
      by_same false = (refl, refl, tt)
  released shared ((q, a) ∷ []) [] e f h =
      Leaves-by (ok, owned q a) ok (remove_ability_sharer p c os) ((q, a) ∷ []) []
        (after_remove shared unique ((q, a) ∷ []) e) (after_remove shared shared [] f)
        (refl, refl, tt)
  released mode ((q, a) ∷ []) (y ∷ ys) e f h = absurd h
  released mode (x ∷ x' ∷ xs) ys e f h = absurd h

  -- Giving an ability up is what the abstract release says, and leaves the table exclusive.
  pub remove_ability-Leaves :
      (mode : OwnershipMode)
      → IsExclusive c os
      → Released mode (hold_of c os) (remove_ability p c mode os)
  unfolding get_ability_owner get_ability_sharers
  remove_ability-Leaves mode h =
      released mode (select ability c ability unique os) (select ability c ability shared os) refl
        refl h
