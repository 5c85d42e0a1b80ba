-- ===== src/Statuses.antt =====
-- The store of task statuses: src/taskmgr/task_status_mgr.cpp, and TaskStatus of
-- include/taskmgr/task_status.hpp. The database is the list of the rows of one table; a call of SQLite
-- that fails is left out. `datetime('now')` is a number of seconds.
mod Latest
mod Tests
use ability_framework.Prelude.{
  ℕ, String, Bool, true, false, not, ◌&&◌, Option, none, some, List, [], ◌∷◌, ◌++◌, ◌==◌, ltb,
  if◌then◌else◌,
}
use text.Mathlib.Text.{◌==◌ as str_eq}
use ability_framework.Prelude.Int.{ℤ, pos, ltb_ℤ, eqb_ℤ}
use ability_framework.Tasks.State.{
  TaskState, ExecutorType, state_to_string, task_state_from_string, executor_to_string,
  executor_type_from_string,
}

module _ (J : Type 0) where
  pub record StatusReport : Type 0 where
    pub id : ℕ
    pub executor_id : ℕ
    pub executor_type : ExecutorType
    pub state : TaskState
    pub start_time : String
    pub end_time : String
    pub timeout : ℤ
    pub payload : J
    pub message : String

  -- The columns, with the names of the executor and the state as texts. An empty time is NULL.
  pub record StatusRow : Type 0 where
    pub id : ℕ
    pub executor_id : ℕ
    pub executor_type : String
    pub state : String
    pub start_time : Option String
    pub end_time : Option String
    pub input_time : ℕ
    pub timeout : ℤ
    pub payload : J
    pub message : String

-- `ts.start_time.empty() ? nullptr : …`
unfoldable pub null_if_empty : String → Option String
null_if_empty s = if str_eq s "" then none else some s

abbrev pub to_string_unless_null : Option String → String
to_string_unless_null none = ""
to_string_unless_null (some s) = s

module _ {J : Type 0} where
  unfoldable pub row_of : ℕ → StatusReport J → StatusRow J
  row_of now ts = record {
    id = ts.id;
    executor_id = ts.executor_id;
    executor_type = executor_to_string ts.executor_type;
    state = state_to_string ts.state;
    start_time = null_if_empty ts.start_time;
    end_time = null_if_empty ts.end_time;
    input_time = now;
    timeout = ts.timeout;
    payload = ts.payload;
    message = ts.message;
  }

  -- The primary key.
  abbrev pub same_key : StatusRow J → StatusRow J → Bool
  same_key a b = a.id == b.id && a.input_time == b.input_time

  unfoldable pub without_key : StatusRow J → List (StatusRow J) → List (StatusRow J)
  without_key n [] = []
  without_key n (r ∷ rs) = let rest = without_key n rs in if same_key r n then rest else r ∷ rest

  -- push_back, by insert: `REPLACE INTO TaskStatus`.
  unfoldable pub push_back : ℕ → StatusReport J → List (StatusRow J) → List (StatusRow J)
  unfolding row_of without_key
  push_back now ts rows = without_key (row_of now ts) rows ++ row_of now ts ∷ []

  -- from_db_row and from_db_row_except_id; `none` is the exception for the name of a state.
  unfoldable pub from_db_row : StatusRow J → Option (StatusReport J)
  from_db_row r = elim (task_state_from_string r.state) [
    | none ↦ none
    | some state ↦ some (record {
      id = r.id;
      executor_id = r.executor_id;
      executor_type = executor_type_from_string r.executor_type;
      state = state;
      start_time = to_string_unless_null r.start_time;
      end_time = to_string_unless_null r.end_time;
      timeout = r.timeout;
      payload = r.payload;
      message = r.message;
    })
  ]

  abbrev pub later : StatusRow J → Option (StatusRow J) → StatusRow J
  later r none = r
  later r (some q) = if ltb r.input_time q.input_time then q else r

  -- `WHERE id = ? ORDER BY input_time DESC LIMIT 1`
  unfoldable pub newest_of : ℕ → List (StatusRow J) → Option (StatusRow J)
  newest_of id [] = none
  newest_of id (r ∷ rs) =
      let rest = newest_of id rs in if r.id == id then some (later r rest) else rest

  -- `ORDER BY input_time DESC`, its first row. Which of two rows of one second comes first is open.
  unfoldable pub newest : List (StatusRow J) → Option (StatusRow J)
  newest [] = none
  newest (r ∷ rs) = let rest = newest rs in some (later r rest)

  abbrev pub found : Option (StatusReport J) → Option (Option (StatusReport J))
  found none = none
  found (some ts) = some (some ts)

  -- A row read, if there is one; the outer `none` is the exception.
  abbrev pub read : Option (StatusRow J) → Option (Option (StatusReport J))
  read none = some none
  read (some r) = found (from_db_row r)

  -- get, by query_task_status.
  unfoldable pub get : ℕ → List (StatusRow J) → Option (Option (StatusReport J))
  unfolding newest_of from_db_row
  get id rows = read (newest_of id rows)

  abbrev pub one_row : Option (StatusReport J) → List (StatusReport J)
  one_row none = []
  one_row (some ts) = ts ∷ []

  abbrev pub read_rows : Option (Option (StatusReport J)) → Option (List (StatusReport J))
  read_rows none = none
  read_rows (some o) = some (one_row o)

  -- query, by range_query. `LIMIT 0` gives no row; the row is stepped to once, with an `if`.
  unfoldable pub range_query : ℤ → List (StatusRow J) → Option (List (StatusReport J))
  unfolding newest from_db_row
  range_query limit rows = if eqb_ℤ limit (pos 0) then some [] else read_rows (read (newest rows))

-- GET /api/task-status: the limit that the request gives, or 20.
unfoldable pub limit_of : Option ℤ → ℤ
limit_of none = pos 20
limit_of (some n) = if ltb_ℤ (pos 0) n then n else pos 20
