-- ===== src/Schema/Declared.antt =====
-- Which documents validate_cr_tasks_field accepts: src/resourcemgr/json_schema_utils.cpp.
use text.Mathlib.Text.{◌==◌ as str_eq}
use text.Mathlib.TextEquality.{eq_iff}
use ability_framework.Prelude.{
  ℕ, suc, String, true, Option, none, some, List, [], ◌∷◌, ◌≡◌, ◌↔◌, ◌⊎◌, inl, inr, refl, ap, ◌∙◌,
  arith, Bool-cases,
}
use ability_framework.Json.{
  Json, string, array, object, Items, no_items, item, Fields, get_field, find_in,
}
use ability_framework.Schema.Tasks.{
  TaskError, add_name, task_names, manifest_task_names, is_name, check_name, check_task,
  task_errors, report_errors, check_tasks, tasks_field, spec_field, validate_cr_tasks_field,
}

-- A task of this name.
abbrev pub IsNamed : String → Json → Type 0
IsNamed s t = find_in "taskName" t ≡ some (string s)

abbrev pub Any : (Json → Type 0) → Items → Type 0
Any P no_items = ⊥
Any P (item t ts) = P t ⊎ Any P ts

abbrev pub Each : (Json → Type 0) → Items → Type 0
Each P no_items = Unit {0}
Each P (item t ts) = P t × Each P ts

-- The manifest has a task of the name that the task has.
abbrev pub IsDeclared : Items → Json → Type 0
IsDeclared declared t = (s : String) × IsNamed s t × Any (IsNamed s) declared

-- The document has a list of tasks that is not empty, each of them declared in the manifest's list.
abbrev pub UsesDeclared : Json → Json → Type 0
UsesDeclared cr manifest =
    (spec : Fields) × (t : Json) × (ts : Items) × (declared : Items) × (find_in "spec" cr
      ≡ some (object spec))
    × (get_field "tasks" spec ≡ some (array (item t ts)))
    × (manifest ≡ array declared)
    × Each (IsDeclared declared) (item t ts)

-- The names that are collected are those of the tasks.
module _ (s : String) where
  named :
      (o : Option Json) (ns : List String) (t : Json) (ts : Items)
      → find_in "taskName" t ≡ o
      → (is_name s ns ≡ true → Any (IsNamed s) ts)
      → is_name s (add_name o ns) ≡ true
      → Any (IsNamed s) (item t ts)
  unfolding is_name
  named none ns t ts e f h = inr (f h)
  named (some (string n)) ns t ts e f h = elim (Bool-cases (str_eq n s)) [
    | inl same ↦ inl (e ∙ ap (λ x. some (string x)) ((eq_iff n s).0 same))
    | inr differs ↦ inr (f (ground (arith, differs, h)))
  ]
  named (some other) ns t ts e f h = inr (f h)

  Any-task_names : (ts : Items) → is_name s (task_names ts) ≡ true → Any (IsNamed s) ts
  unfolding task_names is_name
  Any-task_names no_items h = cc
  Any-task_names (item t ts) h =
      named (find_in "taskName" t) (task_names ts) t ts refl (Any-task_names ts) h

  is_name-add_name :
      (o : Option Json) (ns : List String) → is_name s ns ≡ true → is_name s (add_name o ns) ≡ true
  unfolding is_name
  is_name-add_name none ns h = h
  is_name-add_name (some (string n)) ns h = ground (arith, h)
  is_name-add_name (some other) ns h = h

  is_name-task_names : (ts : Items) → Any (IsNamed s) ts → is_name s (task_names ts) ≡ true
  unfolding task_names is_name
  is_name-task_names no_items h = absurd h
  is_name-task_names (item t ts) (inl e) = rw e (ground (arith, eq_iff s s))
  is_name-task_names (item t ts) (inr h) =
      is_name-add_name (find_in "taskName" t) (task_names ts) (is_name-task_names ts h)

module _ (names : List String) where
  -- A task without an error.
  abbrev IsRight : Json → Type 0
  IsRight t = (s : String) × IsNamed s t × (is_name s names ≡ true)

  check_name_right :
      (i : ℕ) (o : Option Json) (errors : List TaskError)
      → check_name names i o errors ≡ []
      → (s : String) × (o ≡ some (string s)) × (is_name s names ≡ true) × (errors ≡ [])
  check_name_right i none errors h = cc
  check_name_right i (some (string s)) errors h = (s, refl, ground (arith, h), ground (arith, h))
  check_name_right i (some other) errors h = cc

  check_task-IsRight :
      (i : ℕ) (t : Json) (errors : List TaskError)
      → check_task names i t errors ≡ []
      → IsRight t × (errors ≡ [])
  check_task-IsRight i (object fs) errors h =
      let (s, e, n, l) = check_name_right i (get_field "taskName" fs) errors h in ((s, e, n), l)
  check_task-IsRight i other errors h = cc

  check_task_silent :
      (i : ℕ) (t : Json) (errors : List TaskError)
      → IsRight t
      → check_task names i t errors ≡ errors
  check_task_silent i (object fs) errors (s, e, n) = rw (e, n) refl
  check_task_silent i other errors (s, e, n) = cc

  task_errors-IsRight : (i : ℕ) (ts : Items) → task_errors names i ts ≡ [] → Each IsRight ts
  unfolding task_errors
  task_errors-IsRight i no_items h = tt
  task_errors-IsRight i (item t ts) h =
      let (right, rest) = check_task-IsRight i t (task_errors names (suc i) ts) h in
      (right, task_errors-IsRight (suc i) ts rest)

  task_errors_silent : (i : ℕ) (ts : Items) → Each IsRight ts → task_errors names i ts ≡ []
  unfolding task_errors
  task_errors_silent i no_items h = refl
  task_errors_silent i (item t ts) (right, rest) =
      check_task_silent i t (task_errors names (suc i) ts) right
      ∙ task_errors_silent (suc i) ts rest

Each-map : (P Q : Json → Type 0) (ts : Items) → ((t : Json) → P t → Q t) → Each P ts → Each Q ts
Each-map P Q no_items f h = tt
Each-map P Q (item t ts) f (h, k) = (f t h, Each-map P Q ts f k)

report_errors-none : (es : List TaskError) → report_errors es ≡ none → es ≡ []
report_errors-none [] h = refl
report_errors-none (e ∷ es) h = cc

check_tasks-IsRight :
    (names : List String) (ts : Items) → check_tasks names ts ≡ none → Each (IsRight names) ts
check_tasks-IsRight [] ts h = cc
check_tasks-IsRight (n ∷ ns) ts h =
    task_errors-IsRight (n ∷ ns) 0 ts (report_errors-none (task_errors (n ∷ ns) 0 ts) h)

check_tasks_silent :
    (names : List String) (t : Json) (ts : Items)
    → Each (IsRight names) (item t ts)
    → check_tasks names (item t ts) ≡ none
unfolding is_name
check_tasks_silent [] t ts ((s, e, n), h) = ground (arith, n)
check_tasks_silent (n ∷ ns) t ts h = ap report_errors (task_errors_silent (n ∷ ns) 0 (item t ts) h)

IsDeclared-of_names :
    (declared : Items) (t : Json) → IsRight (task_names declared) t → IsDeclared declared t
IsDeclared-of_names declared t (s, e, n) = (s, e, Any-task_names s declared n)

IsRight-of_declared :
    (declared : Items) (t : Json) → IsDeclared declared t → IsRight (task_names declared) t
IsRight-of_declared declared t (s, e, n) = (s, e, is_name-task_names s declared n)

abbrev UsesTasks : Option Json → Json → Type 0
UsesTasks tasks manifest =
    (t : Json) × (ts : Items) × (declared : Items) × (tasks ≡ some (array (item t ts)))
    × (manifest ≡ array declared)
    × Each (IsDeclared declared) (item t ts)

tasks_right :
    (manifest : Json) (t : Json) (ts : Items)
    → check_tasks (manifest_task_names manifest) (item t ts) ≡ none
    → UsesTasks (some (array (item t ts))) manifest
tasks_right (array declared) t ts h = (
  t,
  ts,
  declared,
  refl,
  refl,
  Each-map (IsRight (task_names declared)) (IsDeclared declared) (item t ts)
      (IsDeclared-of_names declared) (check_tasks-IsRight (task_names declared) (item t ts) h),
)
tasks_right other t ts h = cc

tasks_field_right :
    (manifest : Json) (o : Option Json) → tasks_field manifest o ≡ none → UsesTasks o manifest
tasks_field_right manifest none h = cc
tasks_field_right manifest (some (array (item t ts))) h = tasks_right manifest t ts h
tasks_field_right manifest (some other) h = cc

tasks_field_silent :
    (manifest : Json) (o : Option Json) → UsesTasks o manifest → tasks_field manifest o ≡ none
tasks_field_silent manifest o (t, ts, declared, e, m, h) =
    rw (e, m)
      (check_tasks_silent (task_names declared) t ts (
        Each-map (IsDeclared declared) (IsRight (task_names declared)) (item t ts)
          (IsRight-of_declared declared) h))

spec_field_right :
    (manifest : Json) (cr : Json) (o : Option Json)
    → find_in "spec" cr ≡ o
    → spec_field manifest o ≡ none
    → UsesDeclared cr manifest
spec_field_right manifest cr (some (object fs)) e h =
    let (t, ts, declared, f, m, k) = tasks_field_right manifest (get_field "tasks" fs) h in
    (fs, t, ts, declared, e, f, m, k)
spec_field_right manifest cr other e h = cc

-- A document passes exactly when its spec has a list of tasks that is not empty, the manifest's tasks
-- are a list, and each task of the document has a name that is the name of a task of the manifest.
pub validate_cr_tasks_field_iff :
    (cr manifest : Json) → (validate_cr_tasks_field cr manifest ≡ none) ↔ UsesDeclared cr manifest
unfolding validate_cr_tasks_field
validate_cr_tasks_field_iff cr manifest = (
  spec_field_right manifest cr (find_in "spec" cr) refl,
  λ (spec, t, ts, declared, e, f, m, h).
      rw e (tasks_field_silent manifest (get_field "tasks" spec) (t, ts, declared, f, m, h)),
)
