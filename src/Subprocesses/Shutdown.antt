-- ===== src/Subprocesses/Shutdown.antt =====
-- Which processes are killed when the framework ends: src/subprocessmgr/subprocessmgr.cpp.
use ability_framework.Prelude.{
  ℕ, String, Bool, false, not, ◌&&◌, ◌||◌, Option, none, some, List, [], ◌∷◌, ◌==◌, ◌≡◌, refl, ap,
  ◌∙◌, arith, if◌then◌else◌, All, Map, find, insert, uuid_key, is_some, by_cases,
}
use ability_framework.Prelude.Int.{pos, ltb_ℤ}
use ability_framework.Subprocesses.{
  Machine, ProcessHandle, is_closed, cleanup, member, add_handle, can_execute, raw, start_process,
  drop_data, on_process_exit, on_exit, ProcessRequest, starts, controller, other, on_receive,
}

-- What happens: a request, with the id that a process of it gets, or the exit of a process.
pub data ProcessEvent : Type 0 where
  receives : ℕ → ProcessRequest → ProcessEvent
  ends : ℕ → ProcessEvent

abbrev IsOpen : Map ℕ ProcessHandle → Type 0
IsOpen m = All (λ e. is_closed e.1 ≡ false) m

cleanup-IsOpen : (m : Map ℕ ProcessHandle) → IsOpen (cleanup m)
unfolding cleanup
cleanup-IsOpen [] = tt
cleanup-IsOpen ((id, h) ∷ m) = ground (arith, cleanup-IsOpen m)

insert-IsOpen :
    (id : ℕ) (h : ProcessHandle) (m : Map ℕ ProcessHandle)
    → is_closed h ≡ false
    → IsOpen m
    → IsOpen (insert id h m)
unfolding insert
insert-IsOpen id h [] c k = (c, tt)
insert-IsOpen id h ((i, g) ∷ m) c k = ground (arith, c, k, insert-IsOpen id h m c k.1)

-- In a map without closed handles a handle is found exactly when its process would be killed.
member-on_exit :
    (id : ℕ) (m : Map ℕ ProcessHandle) → IsOpen m → member id (on_exit m) ≡ is_some (find id m)
unfolding on_exit find
member-on_exit id [] k = refl
member-on_exit id ((i, h) ∷ m) k = ground (arith, k.0, member-on_exit id m k.1)

member-on_exit-insert :
    (id j : ℕ) (h : ProcessHandle) (m : Map ℕ ProcessHandle)
    → is_closed h ≡ false
    → member j (on_exit (insert id h m)) ≡ (id == j || member j (on_exit m))
unfolding on_exit insert
member-on_exit-insert id j h [] c = ground (arith, c)
member-on_exit-insert id j h ((i, g) ∷ m) c = ground (arith, c, member-on_exit-insert id j h m c)

member-on_exit-on_process_exit :
    (id j : ℕ) (m : Map ℕ ProcessHandle)
    → member j (on_exit (on_process_exit id m)) ≡ (if id == j then false else member j (on_exit m))
unfolding on_process_exit on_exit cleanup drop_data
member-on_exit-on_process_exit id j [] = ground arith
member-on_exit-on_process_exit id j ((i, g) ∷ m) =
    ground (arith, member-on_exit-on_process_exit id j m)

add_handle-IsOpen :
    (id : ℕ) (h : ProcessHandle) (m : Map ℕ ProcessHandle)
    → is_closed h ≡ false
    → IsOpen m
    → IsOpen (add_handle id h m)
unfolding add_handle
add_handle-IsOpen id h m c k = by_cases IsOpen (is_some (find id m)) k (insert-IsOpen id h m c k)

member-add_handle :
    (id j : ℕ) (h : ProcessHandle) (m : Map ℕ ProcessHandle)
    → is_closed h ≡ false
    → IsOpen m
    → member j (on_exit (add_handle id h m)) ≡ (id == j || member j (on_exit m))
unfolding add_handle
member-add_handle id j h m c k =
    ground (arith, member-on_exit id m k, member-on_exit-insert id j h m c)

module _ (machine : Machine) where
  abbrev pub is_true : Option Bool → Bool
  is_true none = false
  is_true (some b) = b

  -- The file is there and may be executed, and the spawning succeeds.
  abbrev pub can_start : String → List String → Map String String → Bool
  can_start path args envs =
      machine.file_exists path
      && (is_true (can_execute path machine)
          && not (ltb_ℤ (machine.spawn path (path ∷ args) (raw envs)) (pos 0)))

  abbrev pub launches : ProcessRequest → Bool
  launches (starts path args envs labels) = can_start path args envs
  launches (controller path controller_id nested) = can_start path (controller_id ∷ nested ∷ []) []
  launches other = false

  -- The handles after a history, the last event first.
  abbrev pub handles_after : List ProcessEvent → Map ℕ ProcessHandle
  handles_after [] = []
  handles_after (receives id q ∷ before) = (on_receive machine id q (handles_after before)).1
  handles_after (ends id ∷ before) = on_process_exit id (handles_after before)

  -- Whether a process runs: it was launched and has not ended since.
  abbrev pub is_running : ℕ → List ProcessEvent → Bool
  is_running j [] = false
  is_running j (receives id q ∷ before) =
      let rest = is_running j before in (id == j && launches q) || rest
  is_running j (ends id ∷ before) =
      let rest = is_running j before in if id == j then false else rest

  -- A start of a process: what it leaves of the handles.
  abbrev Leaves : ℕ → Bool → Map ℕ ProcessHandle → Map ℕ ProcessHandle → Type 0
  Leaves id started m m' =
      IsOpen m' × ((j : ℕ) → member j (on_exit m') ≡ ((id == j && started) || member j (on_exit m)))

  unchanged : (id : ℕ) (m : Map ℕ ProcessHandle) → IsOpen m → Leaves id false m m
  unchanged id m k = (k, λ j. ground arith)

  start_process-Leaves :
      (id : ℕ) (path : String) (args : List String) (envs labels : Map String String)
      (m : Map ℕ ProcessHandle)
      → IsOpen m
      → Leaves id (can_start path args envs) m (start_process machine id path args envs labels m).1
  unfolding start_process
  start_process-Leaves id path args envs labels m k =
      let h : ProcessHandle = record { path = path; labels = some labels } in
      (
        ground (arith, k, add_handle-IsOpen id h m refl k),
        λ j. ground (arith, member-add_handle id j h m refl k),
      )

  handles_after-IsOpen : (es : List ProcessEvent) → IsOpen (handles_after es)
  unfolding on_receive on_process_exit
  handles_after-IsOpen [] = tt
  handles_after-IsOpen (receives id (starts path args envs labels) ∷ before) =
      (start_process-Leaves id path args envs labels (handles_after before)
        (handles_after-IsOpen before)).0
  handles_after-IsOpen (receives id (controller path controller_id nested) ∷ before) =
      (start_process-Leaves id path (controller_id ∷ nested ∷ []) [] [] (handles_after before)
        (handles_after-IsOpen before)).0
  handles_after-IsOpen (receives id other ∷ before) = handles_after-IsOpen before
  handles_after-IsOpen (ends id ∷ before) = cleanup-IsOpen (drop_data id (handles_after before))

  -- After any history of requests and of exits of processes, the framework's own end kills exactly
  -- the processes that were launched (their file is there and may be executed, and the spawning
  -- succeeds) and have not ended since.
  pub on_exit-handles_after :
      (es : List ProcessEvent) (j : ℕ) → member j (on_exit (handles_after es)) ≡ is_running j es
  unfolding on_receive on_exit
  on_exit-handles_after [] j = refl
  on_exit-handles_after (receives id (starts path args envs labels) ∷ before) j =
      (start_process-Leaves id path args envs labels (handles_after before)
          (handles_after-IsOpen before)).1
        j
      ∙ ap (λ x. (id == j && can_start path args envs) || x) (on_exit-handles_after before j)
  on_exit-handles_after (receives id (controller path controller_id nested) ∷ before) j =
      (start_process-Leaves id path (controller_id ∷ nested ∷ []) [] [] (handles_after before)
          (handles_after-IsOpen before)).1
        j
      ∙ ap (λ x. (id == j && can_start path (controller_id ∷ nested ∷ []) []) || x)
          (on_exit-handles_after before j)
  on_exit-handles_after (receives id other ∷ before) j =
      ground (arith, on_exit-handles_after before j)
  on_exit-handles_after (ends id ∷ before) j =
      member-on_exit-on_process_exit id j (handles_after before)
      ∙ ap (λ x. if id == j then false else x) (on_exit-handles_after before j)
