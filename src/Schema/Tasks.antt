-- ===== src/Schema/Tasks.antt =====
-- validate_cr_tasks_field of src/resourcemgr/json_schema_utils.cpp.
use text.Mathlib.Text.{◌==◌ as str_eq}
use ability_framework.Prelude.{
  ℕ, suc, String, Bool, false, ◌||◌, Option, none, some, List, [], ◌∷◌, if◌then◌else◌,
}
use ability_framework.Json.{Json, string, array, object, Items, no_items, item, get_field, find_in}

-- What is wrong with a task, by its index.
pub data TaskError : Type 0 where
  not_an_object : ℕ → TaskError
  no_task_name : ℕ → TaskError
  unknown_task : ℕ → String → TaskError

-- The texts of the errors.
pub data FieldError : Type 0 where
  no_spec : FieldError
  no_tasks : FieldError
  no_task_list : FieldError
  no_manifest_tasks : FieldError
  bad_tasks : TaskError → List TaskError → FieldError

-- The taskName of a task of the manifest, when it is a text.
abbrev pub add_name : Option Json → List String → List String
add_name (some (string s)) names = s ∷ names
add_name _ names = names

unfoldable pub task_names : Items → List String
task_names no_items = []
task_names (item t ts) = add_name (find_in "taskName" t) (task_names ts)

abbrev pub manifest_task_names : Json → List String
manifest_task_names (array ts) = task_names ts
manifest_task_names _ = []

unfoldable pub is_name : String → List String → Bool
is_name s [] = false
is_name s (n ∷ ns) = str_eq n s || is_name s ns

abbrev pub check_name : List String → ℕ → Option Json → List TaskError → List TaskError
check_name names i (some (string s)) errors =
    if is_name s names then errors else unknown_task i s ∷ errors
check_name names i _ errors = no_task_name i ∷ errors

abbrev pub check_task : List String → ℕ → Json → List TaskError → List TaskError
check_task names i (object fs) errors = check_name names i (get_field "taskName" fs) errors
check_task names i _ errors = not_an_object i ∷ errors

unfoldable pub task_errors : List String → ℕ → Items → List TaskError
task_errors names i no_items = []
task_errors names i (item t ts) = check_task names i t (task_errors names (suc i) ts)

-- `none` is the success.
abbrev pub report_errors : List TaskError → Option FieldError
report_errors [] = none
report_errors (e ∷ es) = some (bad_tasks e es)

abbrev pub check_tasks : List String → Items → Option FieldError
check_tasks [] ts = some no_manifest_tasks
check_tasks (n ∷ ns) ts = report_errors (task_errors (n ∷ ns) 0 ts)

abbrev pub tasks_field : Json → Option Json → Option FieldError
tasks_field manifest none = some no_tasks
tasks_field manifest (some (array (item t ts))) =
    check_tasks (manifest_task_names manifest) (item t ts)
tasks_field manifest (some _) = some no_task_list

abbrev pub spec_field : Json → Option Json → Option FieldError
spec_field manifest (some (object fs)) = tasks_field manifest (get_field "tasks" fs)
spec_field manifest _ = some no_spec

-- From the document and the manifest's tasks.
unfoldable pub validate_cr_tasks_field : Json → Json → Option FieldError
validate_cr_tasks_field cr manifest = spec_field manifest (find_in "spec" cr)
