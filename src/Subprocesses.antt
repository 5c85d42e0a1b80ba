-- ===== src/Subprocesses.antt =====
-- SubprocessManager: src/subprocessmgr/subprocessmgr.cpp and include/subprocessmgr/subprocess_mgr.hpp.
-- The files, the users and the spawning of processes by libuv are a parameter, the machine. The map
-- of handles is behind a lock, so an operation is one step.
mod Shutdown
mod Tests
use Prim.Native.String.{◌++◌ as str_append}
use ability_framework.Prelude.{
  ℕ, String, Bool, true, false, not, ◌&&◌, ◌||◌, Option, none, some, List, [], ◌∷◌, ◌++◌, ◌==◌,
  if◌then◌else◌, Map, find, insert, uuid_key, is_some,
}
use ability_framework.Prelude.Int.{ℤ, pos, ltb_ℤ}

-- What `stat` tells of a file: the owner, the group, and who may execute it.
pub record FileStat : Type 0 where
  pub st_uid : ℕ
  pub st_gid : ℕ
  pub owner_executes : Bool
  pub group_executes : Bool
  pub others_execute : Bool

-- `spawn` gives the value of uv_spawn for a path, the arguments and the environment, which is that
-- of the framework under `none`. `groups` is `none` where getgroups fails.
pub record Machine : Type 0 where
  pub file_exists : String → Bool
  pub stat : String → Option FileStat
  pub uid : ℕ
  pub groups : Option (List ℕ)
  pub spawn : String → List String → Option (List String) → ℤ

-- The data of a handle are the labels of the process; a handle without data counts as closed.
pub record ProcessHandle : Type 0 where
  pub path : String
  pub labels : Option (Map String String)

-- What start_process ends in: the id, or an exception.
pub data Started : Type 0 where
  process : ℕ → Started
  no_file : Started
  no_permission : Started
  no_groups : Started
  no_spawn : Started

abbrev pub is_closed : ProcessHandle → Bool
is_closed h = not (is_some h.labels)

-- cleanup
unfoldable pub cleanup : Map ℕ ProcessHandle → Map ℕ ProcessHandle
cleanup [] = []
cleanup ((id, h) ∷ m) = let rest = cleanup m in if is_closed h then rest else (id, h) ∷ rest

abbrev pub member : ℕ → List ℕ → Bool
member g [] = false
member g (h ∷ hs) = h == g || member g hs

-- can_execute, once the groups are known; `none` is std::system_error.
abbrev pub in_group : FileStat → Option (List ℕ) → Option Bool
in_group f none = none
in_group f (some groups) = some (member f.st_gid groups && f.group_executes)

abbrev pub may_execute : FileStat → Machine → Option Bool
may_execute f machine =
    if f.others_execute
    then some true
    else if f.st_uid == machine.uid && f.owner_executes
    then some true
    else in_group f machine.groups

unfoldable pub can_execute : String → Machine → Option Bool
can_execute path machine = elim (machine.stat path) [
  | none ↦ some false
  | some f ↦ may_execute f machine
]

-- EnvParams
unfoldable pub env_entries : Map String String → List String
env_entries [] = []
env_entries ((k, v) ∷ m) = str_append k (str_append "=" v) ∷ env_entries m

unfoldable pub raw : Map String String → Option (List String)
raw [] = none
raw (e ∷ m) = some (env_entries (e ∷ m))

-- add, which does not replace a handle.
unfoldable pub add_handle : ℕ → ProcessHandle → Map ℕ ProcessHandle → Map ℕ ProcessHandle
add_handle id h m = if is_some (find id m) then m else insert id h m

-- start_process; `id` is what make_uuid gives.
abbrev pub spawned :
    ℕ → String → Map String String → ℤ → Map ℕ ProcessHandle → Started × Map ℕ ProcessHandle
spawned id path labels ret m =
    if ltb_ℤ ret (pos 0)
    then (no_spawn, m)
    else (process id, add_handle id (record { path = path; labels = some labels }) m)

abbrev pub permitted :
    ℕ
    → String
    → Map String String
    → ℤ
    → Option Bool
    → Map ℕ ProcessHandle
    → Started × Map ℕ ProcessHandle
permitted id path labels ret none m = (no_groups, m)
permitted id path labels ret (some false) m = (no_permission, m)
permitted id path labels ret (some true) m = spawned id path labels ret m

unfoldable pub start_process :
    Machine
    → ℕ
    → String
    → List String
    → Map String String
    → Map String String
    → Map ℕ ProcessHandle
    → Started × Map ℕ ProcessHandle
start_process machine id path args envs labels m =
    if not (machine.file_exists path)
    then (no_file, m)
    else permitted id path labels (machine.spawn path (path ∷ args) (raw envs))
        (can_execute path machine) m

-- The exit event of a process: after its callback, the data go, and then the handle.
unfoldable pub drop_data : ℕ → Map ℕ ProcessHandle → Map ℕ ProcessHandle
drop_data id [] = []
drop_data id ((i, h) ∷ m) =
    (if i == id then (i, record h { labels = none }) else (i, h)) ∷ drop_data id m

unfoldable pub on_process_exit : ℕ → Map ℕ ProcessHandle → Map ℕ ProcessHandle
unfolding cleanup drop_data
on_process_exit id m = cleanup (drop_data id m)

-- on_exit: the processes that it sends SIGTERM, in the order of the map.
unfoldable pub on_exit : Map ℕ ProcessHandle → List ℕ
on_exit [] = []
on_exit ((id, h) ∷ m) = let rest = on_exit m in if is_closed h then rest else id ∷ rest

-- on_receive: the options of start_process, or what a controller needs; the answers to the sender are
-- the error or the id. A controller is started with its id and the JSON of the framework's address,
-- and nobody is told of the outcome.
pub data ProcessRequest : Type 0 where
  starts : String → List String → Map String String → Map String String → ProcessRequest
  controller : String → String → String → ProcessRequest
  other : ProcessRequest

pub data Reply : Type 0 where
  responds : Started → Reply
  nothing : Reply
  invalid_operation : Reply

unfoldable pub on_receive :
    Machine → ℕ → ProcessRequest → Map ℕ ProcessHandle → Reply × Map ℕ ProcessHandle
unfolding start_process
on_receive machine id (starts path args envs labels) m =
    let (res, m') = start_process machine id path args envs labels m in (responds res, m')
on_receive machine id (controller path controller_id nested) m =
    (nothing, (start_process machine id path (controller_id ∷ nested ∷ []) [] [] m).1)
on_receive machine id other m = (invalid_operation, m)
