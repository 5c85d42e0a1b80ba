-- ===== src/Statuses/Tests.antt =====
-- The theorem about the store of task statuses at a short history, and the list of statuses.
use ability_framework.Prelude.{ℕ, some, List, [], ◌∷◌, ◌≡◌, refl, arith}
use ability_framework.Prelude.Int.{pos}
use ability_framework.Tasks.State.{
  running, finished, ExecutorType, state_to_string, executor_to_string, task_state_from_string,
  executor_type_from_string,
}
use ability_framework.Statuses.{
  StatusReport, get, push_back, row_of, null_if_empty, range_query, newest, from_db_row,
}
use ability_framework.Statuses.Latest.{rows_after, last_of, get-rows_after}

abbrev begun : StatusReport ℕ
begun = record {
  id = 5;
  executor_id = 8;
  executor_type = ExecutorType.framework;
  state = running;
  start_time = "10:00";
  end_time = "";
  timeout = pos 60;
  payload = 0;
  message = "";
}

abbrev ended : StatusReport ℕ
ended = record begun { state = finished; end_time = "10:01" }

-- Both in one second.
abbrev two_statuses : List (ℕ × StatusReport ℕ)
two_statuses = (100, ended) ∷ (100, begun) ∷ []

get-rows_after_example : get 5 (rows_after two_statuses) ≡ some (last_of 5 two_statuses)
get-rows_after_example = get-rows_after 5 two_statuses (omega arith)

abbrev other_task : StatusReport ℕ
other_task = record begun { id = 6 }

-- The list of statuses ends after its first row.
one_of_two :
    range_query (pos 20) (rows_after ((101, other_task) ∷ two_statuses)) ≡ some (other_task ∷ [])
unfolding range_query push_back row_of null_if_empty newest from_db_row state_to_string
    executor_to_string task_state_from_string executor_type_from_string
one_of_two = refl
