-- ===== src/Statuses/Latest.antt =====
-- The status that is read is the one that was stored last: src/taskmgr/task_status_mgr.cpp.
use ability_framework.Prelude.{
  ℕ, ◌≤◌, String, Bool, true, false, Option, none, some, List, [], ◌∷◌, ◌++◌, ◌==◌, ==_iff, ◌≡◌,
  ◌≢◌, refl, sym, ap, ◌∙◌, arith, if◌then◌else◌, All,
}
use text.Mathlib.Text.{◌==◌ as str_eq}
use text.Mathlib.TextEquality.{eq_iff}
use ability_framework.Tasks.Names.{names_round_trip}
use ability_framework.Statuses.{
  StatusReport, StatusRow, null_if_empty, to_string_unless_null, row_of, without_key, push_back,
  from_db_row, found, newest_of, read, get,
}

unless_null-null_if_empty : (s : String) → to_string_unless_null (null_if_empty s) ≡ s
unfolding null_if_empty
unless_null-null_if_empty s = by_empty (str_eq s "") refl
  where
    by_empty : (b : Bool) → str_eq s "" ≡ b → to_string_unless_null (if b then none else some s) ≡ s
    by_empty true e = sym ((eq_iff s "").0 e)
    by_empty false e = refl

module _ {J : Type 0} where
  -- A status that is stored reads back as it was.
  from_db_row-row_of : (now : ℕ) (ts : StatusReport J) → from_db_row (row_of now ts) ≡ some ts
  unfolding from_db_row row_of
  from_db_row-row_of now ts =
      let (s, e) = names_round_trip ts.state ts.executor_type in
      ground (
        arith,
        s,
        e,
        unless_null-null_if_empty ts.start_time,
        unless_null-null_if_empty ts.end_time,
      )

  -- Rows that are not later than a time.
  abbrev IsUntil : ℕ → List (StatusRow J) → Type 0
  IsUntil now rows = All (λ r. r.input_time ≤ now) rows

  newest_of-same :
      (n : StatusRow J) (rows : List (StatusRow J))
      → IsUntil n.input_time rows
      → newest_of n.id (without_key n rows ++ n ∷ []) ≡ some n
  unfolding newest_of without_key
  newest_of-same n [] h = ground arith
  newest_of-same n (r ∷ rs) h = ground (arith, h.0, newest_of-same n rs h.1)

  newest_of-other :
      (n : StatusRow J) (id : ℕ) (rows : List (StatusRow J))
      → n.id ≢ id
      → newest_of id (without_key n rows ++ n ∷ []) ≡ newest_of id rows
  unfolding newest_of without_key
  newest_of-other n id [] h = ground (arith, h)
  newest_of-other n id (r ∷ rs) h = ground (arith, h, newest_of-other n id rs h)

  without_key-IsUntil :
      (n : StatusRow J) (now : ℕ) (rows : List (StatusRow J))
      → IsUntil now rows
      → n.input_time ≤ now
      → IsUntil now (without_key n rows ++ n ∷ [])
  unfolding without_key
  without_key-IsUntil n now [] h le = (le, tt)
  without_key-IsUntil n now (r ∷ rs) h le = ground (arith, h.0, without_key-IsUntil n now rs h.1 le)

  -- Stored statuses with the second of each, the last first.
  abbrev pub rows_after : List (ℕ × StatusReport J) → List (StatusRow J)
  rows_after [] = []
  rows_after ((now, ts) ∷ before) = push_back now ts (rows_after before)

  abbrev pub last_of : ℕ → List (ℕ × StatusReport J) → Option (StatusReport J)
  last_of id [] = none
  last_of id ((now, ts) ∷ before) = if ts.id == id then some ts else last_of id before

  -- The clock of the database never goes back.
  abbrev pub IsOrdered : List (ℕ × StatusReport J) → Type 0
  IsOrdered [] = Unit {0}
  IsOrdered ((now, ts) ∷ before) = All (λ e. e.0 ≤ now) before × IsOrdered before

  rows_after-IsUntil :
      (now : ℕ) (pushed : List (ℕ × StatusReport J))
      → All (λ e. e.0 ≤ now) pushed
      → IsUntil now (rows_after pushed)
  unfolding push_back row_of
  rows_after-IsUntil now [] h = tt
  rows_after-IsUntil now ((t, ts) ∷ before) h =
      without_key-IsUntil (row_of t ts) now (rows_after before) (rows_after-IsUntil now before h.1)
        h.0

  -- Unless the clock of the database has gone back, the status that is read for a task is the one
  -- stored last for it, with every field as it was given, and none if none was stored: also where
  -- several were stored in one second.
  pub get-rows_after :
      (id : ℕ) (pushed : List (ℕ × StatusReport J))
      → IsOrdered pushed
      → get id (rows_after pushed) ≡ some (last_of id pushed)
  unfolding get push_back newest_of row_of
  get-rows_after id [] h = refl
  get-rows_after id ((now, ts) ∷ before) (h, k) =
      by_id (ts.id == id) refl (get-rows_after id before k)
    where
      rows : List (StatusRow J)
      rows = rows_after before

      n : StatusRow J
      n = row_of now ts

      by_id :
          (b : Bool)
          → (ts.id == id) ≡ b
          → get id rows ≡ some (last_of id before)
          → read (newest_of id (without_key n rows ++ n ∷ []))
            ≡ some (if b then some ts else last_of id before)
      by_id true e rest =
          ap (λ i. read (newest_of i (without_key n rows ++ n ∷ []))) (sym ((==_iff ts.id id).0 e))
          ∙ ap read (newest_of-same n rows (rows_after-IsUntil now before h))
          ∙ ap found (from_db_row-row_of now ts)
      by_id false e rest =
          ap read (newest_of-other n id rows (λ same. ground (arith, e, same))) ∙ rest
