-- ===== src/Lifecycle/Manager.antt =====
-- LifecycleManager's table of heartbeats (src/lifecyclemgr/lifecycle_mgr.cpp). The sharded map locks
-- a key for an operation, so each is one step on one map. `make` gives the client for a URL.
use Prim.Native.String.{◌++◌ as str_append}
use ability_framework.Prelude.{
  ℕ, ◌+◌, String, Bool, true, false, Option, none, some, List, [], ◌∷◌, ◌++◌, ◌==◌, ltb,
  if◌then◌else◌, Map, find, insert, erase, uuid_key,
}
use ability_framework.Lifecycle.Heartbeat.{
  LifecycleState, unknown, is_active, is_running, Heartbeat, protocol_to_string,
}
use ability_framework.Lifecycle.Client.{HttpClient}

-- LifecycleManager::Entry
pub record Entry : Type 0 where
  pub heartbeat : Heartbeat
  pub last_update : ℕ
  pub last_connect : Option ℕ
  pub client : Option HttpClient

abbrev pub Heartbeats : Type 0
Heartbeats = Map ℕ Entry

-- The answer of the ResourceMgr to a HeartbeatEvent: none that counts, or the value of "accepted".
abbrev pub is_accepted : Option Bool → Bool
is_accepted none = false
is_accepted (some accepted) = accepted

module _ (port_to_string : ℕ → String) where
  -- strjoin(heartbeat.IPCProtocol, "://localhost:", heartbeat.IPCPort)
  abbrev pub url_of : Heartbeat → String
  url_of h =
      str_append (protocol_to_string h.ipc_protocol)
        (str_append "://localhost:" (port_to_string h.ipc_port))

  module _ (make : String → Option HttpClient) where
    abbrev pub client_for : Heartbeat → ℕ → Option HttpClient → Option HttpClient
    client_for h old_port none = make (url_of h)
    client_for h old_port (some c) = if old_port == h.ipc_port then some c else make (url_of h)

    -- The update of an entry; `none` is an entry that exec_on_key has just made.
    unfoldable pub update_entry : ℕ → Heartbeat → Option Entry → Entry
    update_entry now h none = record {
      heartbeat = h;
      last_update = now;
      last_connect = if is_running h.state then some now else none;
      client = make (url_of h);
    }
    update_entry now h (some e) = record {
      heartbeat = h;
      last_update = now;
      last_connect = if is_running h.state then some now else e.last_connect;
      client = client_for h e.heartbeat.ipc_port e.client;
    }

    -- on_heartbeat
    unfoldable pub on_heartbeat : ℕ → Heartbeat → Option Bool → Heartbeats → Bool × Heartbeats
    unfolding update_entry
    on_heartbeat now h answer hs =
        if is_accepted answer
        then (true, insert h.id (update_entry now h (find h.id hs)) hs)
        else (false, hs)

-- get_heartbeat
abbrev pub heartbeat_of : Option Entry → Option Heartbeat
heartbeat_of none = none
heartbeat_of (some e) = some e.heartbeat

unfoldable pub get_heartbeat : ℕ → Heartbeats → Option Heartbeat
get_heartbeat id hs = heartbeat_of (find id hs)

-- contains_active
abbrev pub is_active_entry : Option Entry → Bool
is_active_entry none = false
is_active_entry (some e) = is_active e.heartbeat.state

unfoldable pub contains_active : ℕ → Heartbeats → Bool
unfolding is_active
contains_active id hs = is_active_entry (find id hs)

-- get_running_abilities, which lists every heartbeat on record.
unfoldable pub get_running_abilities : Heartbeats → List Heartbeat
get_running_abilities [] = []
get_running_abilities ((id, e) ∷ hs) = e.heartbeat ∷ get_running_abilities hs

-- MAX_HEARTBEAT_VALID_TIME, a minute in milliseconds.
abbrev pub max_heartbeat_valid_time : ℕ
max_heartbeat_valid_time = 60000

-- now - last_update > MAX_HEARTBEAT_VALID_TIME
abbrev pub is_stale : ℕ → Entry → Bool
is_stale now e = ltb (e.last_update + max_heartbeat_valid_time) now

unfoldable pub stale_ids : ℕ → Heartbeats → List ℕ
stale_ids now [] = []
stale_ids now ((id, e) ∷ hs) =
    let rest = stale_ids now hs in if is_stale now e then id ∷ rest else rest

unfoldable pub erase_ids : List ℕ → Heartbeats → Heartbeats
erase_ids [] hs = hs
erase_ids (id ∷ ids) hs = erase_ids ids (erase id hs)

-- clear_stale_heartbeats
unfoldable pub clear_stale_heartbeats : ℕ → Heartbeats → Heartbeats
unfolding stale_ids erase_ids
clear_stale_heartbeats now hs = erase_ids (stale_ids now hs) hs

-- What is sent when an ability exits: to the parent's port, the id and last state of the one that
-- failed; and to the ResourceMgr that the instance has exited.
pub data Notice : Type 0 where
  subability_error : ℕ → ℕ → LifecycleState → Notice
  instance_exited : ℕ → Notice

abbrev pub last_status : Option Heartbeat → LifecycleState
last_status none = unknown
last_status (some h) = h.state

abbrev pub inform_parent : ℕ → LifecycleState → Option Heartbeat → List Notice
inform_parent id status none = []
inform_parent id status (some parent) = subability_error parent.ipc_port id status ∷ []

abbrev pub parent_heartbeat : Heartbeats → Option ℕ → Option Heartbeat
parent_heartbeat hs none = none
parent_heartbeat hs (some parent_id) = heartbeat_of (find parent_id hs)

-- try_inform_parent_ability; `parent` is the answer of the ResourceMgr.
unfoldable pub try_inform_parent_ability : ℕ → Option ℕ → Heartbeats → List Notice
unfolding get_heartbeat
try_inform_parent_ability id parent hs =
    inform_parent id (last_status (get_heartbeat id hs)) (parent_heartbeat hs parent)

-- on_ability_exit
unfoldable pub on_ability_exit : ℕ → Option ℕ → Heartbeats → List Notice × Heartbeats
unfolding try_inform_parent_ability
on_ability_exit id parent hs =
    (try_inform_parent_ability id parent hs ++ instance_exited id ∷ [], erase id hs)
