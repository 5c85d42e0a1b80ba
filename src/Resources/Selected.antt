-- ===== src/Resources/Selected.antt =====
-- What a query of the table CROwnership finds after a write.
use ability_framework.Prelude.{
  ℕ, String, Bool, true, false, none, List, [], ◌∷◌, ◌++◌, ◌==◌, ◌&&◌, ◌≡◌, refl, arith,
  if◌then◌else◌, Map, find, insert, erase, uuid_key, ap, ◌∙◌,
}
use ability_framework.Resources.Tables.{
  ability, device, OwnershipMode, unique, shared, same_mode, Ownership,
}
use ability_framework.Resources.Ownership.{
  select, to_id_str_map, without_key, replace_into, row, remove_ownership,
}

-- The rows without those of a parent.
unfoldable pub drop_parent : ℕ → List (ℕ × String) → List (ℕ × String)
drop_parent p [] = []
drop_parent p ((id, addr) ∷ rows) =
    let rest = drop_parent p rows in if id == p then rest else (id, addr) ∷ rest

abbrev pub added : Bool → ℕ → String → List (ℕ × String)
added true p addr = (p, addr) ∷ []
added false p addr = []

module _ (p c : ℕ) (addr : String) (m' m : OwnershipMode) (child : ℕ) where
  select-without_key :
      (os : List Ownership)
      → select ability child ability m (without_key (row p c ability addr m') os) ≡ (
          if c == child
          then drop_parent p (select ability child ability m os)
          else select ability child ability m os)
  unfolding select without_key drop_parent
  select-without_key [] = ground arith
  select-without_key (o ∷ os) = ground (arith, select-without_key os)

  select-append :
      (os : List Ownership)
      → select ability child ability m (os ++ row p c ability addr m' ∷ [])
        ≡ select ability child ability m os ++ added (c == child && same_mode m' m) p addr
  unfolding select
  select-append [] = ground arith
  select-append (o ∷ os) = ground (arith, select-append os)

  -- A query after a replacement: the replaced row goes, and the new one comes last.
  pub select-replace_into :
      (os : List Ownership)
      → select ability child ability m (replace_into (row p c ability addr m') os)
        ≡ (if c == child
            then drop_parent p (select ability child ability m os)
            else select ability child ability m os)
          ++ added (c == child && same_mode m' m) p addr
  unfolding replace_into
  select-replace_into os =
      select-append (without_key (row p c ability addr m') os)
      ∙ ap (λ x. x ++ added (c == child && same_mode m' m) p addr) (select-without_key os)

module _ (p c child : ℕ) where
  -- A query after a deletion of a parent's row.
  pub select-remove_ownership :
      (m' m : OwnershipMode) (os : List Ownership)
      → select ability child ability m (remove_ownership p c ability m' os) ≡ (
          if c == child && same_mode m' m
          then drop_parent p (select ability child ability m os)
          else select ability child ability m os)
  unfolding select remove_ownership drop_parent
  select-remove_ownership m' m [] = ground arith
  select-remove_ownership unique unique (o ∷ os) =
      ground (arith, select-remove_ownership unique unique os)
  select-remove_ownership unique shared (o ∷ os) =
      ground (arith, select-remove_ownership unique shared os)
  select-remove_ownership shared unique (o ∷ os) =
      ground (arith, select-remove_ownership shared unique os)
  select-remove_ownership shared shared (o ∷ os) =
      ground (arith, select-remove_ownership shared shared os)

  -- A row of another kind is in no answer.
  pub select-remove_other :
      (m' m : OwnershipMode) (os : List Ownership)
      → select ability child ability m (remove_ownership p c device m' os)
        ≡ select ability child ability m os
  unfolding select remove_ownership
  select-remove_other m' m [] = refl
  select-remove_other m' m (o ∷ os) = ground (arith, select-remove_other m' m os)

pub drop_parent-append :
    (p : ℕ) (xs ys : List (ℕ × String))
    → drop_parent p (xs ++ ys) ≡ drop_parent p xs ++ drop_parent p ys
unfolding drop_parent
drop_parent-append p [] ys = refl
drop_parent-append p ((id, a) ∷ xs) ys = ground (arith, drop_parent-append p xs ys)

-- The map of the rows, without a parent, is that of the rows without it.
erase-insert :
    (p q : ℕ) (a : String) (m : Map ℕ String)
    → erase p (insert q a m) ≡ (if q == p then erase p m else insert q a (erase p m))
unfolding erase insert
erase-insert p q a [] = ground arith
erase-insert p q a ((k, b) ∷ m) = ground (arith, erase-insert p q a m)

pub to_id_str_map-drop_parent :
    (p : ℕ) (rows : List (ℕ × String)) (m : Map ℕ String)
    → to_id_str_map (drop_parent p rows) (erase p m) ≡ erase p (to_id_str_map rows m)
unfolding to_id_str_map drop_parent
to_id_str_map-drop_parent p [] m = refl
to_id_str_map-drop_parent p ((q, a) ∷ rows) m =
    ground (arith, erase-insert p q a m, to_id_str_map-drop_parent p rows (insert q a m))

pub to_id_str_map-append :
    (rows : List (ℕ × String)) (p : ℕ) (a : String) (m : Map ℕ String)
    → to_id_str_map (rows ++ (p, a) ∷ []) m ≡ insert p a (to_id_str_map rows m)
unfolding to_id_str_map
to_id_str_map-append [] p a m = refl
to_id_str_map-append ((q, b) ∷ rows) p a m = to_id_str_map-append rows p a (insert q b m)

-- A parent that the map does not have has no row.
find-insert-none :
    (p q : ℕ) (a : String) (m : Map ℕ String)
    → find p (insert q a m) ≡ none
    → ((q == p) ≡ false) × (find p m ≡ none)
unfolding find insert
find-insert-none p q a [] h = ground arith
find-insert-none p q a ((k, b) ∷ m) h = ground (arith, find-insert-none p q a m)

find-to_id_str_map :
    (p : ℕ) (rows : List (ℕ × String)) (m : Map ℕ String)
    → find p (to_id_str_map rows m) ≡ none
    → find p m ≡ none
unfolding to_id_str_map
find-to_id_str_map p [] m h = h
find-to_id_str_map p ((q, a) ∷ rows) m h =
    (find-insert-none p q a m (find-to_id_str_map p rows (insert q a m) h)).1

pub drop_parent_absent :
    (p : ℕ) (rows : List (ℕ × String)) (m : Map ℕ String)
    → find p (to_id_str_map rows m) ≡ none
    → drop_parent p rows ≡ rows
unfolding to_id_str_map drop_parent
drop_parent_absent p [] m h = refl
drop_parent_absent p ((q, a) ∷ rows) m h = ground (
  arith,
  (find-insert-none p q a m (find-to_id_str_map p rows (insert q a m) h)).0,
  drop_parent_absent p rows (insert q a m) h,
)
