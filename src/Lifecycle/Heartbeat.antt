-- ===== src/Lifecycle/Heartbeat.antt =====
-- include/lifecyclemgr/heartbeat.hpp and src/lifecyclemgr/heartbeat.cpp.
use text.Mathlib.Text.{◌==◌ as str_eq}
use ability_framework.Prelude.{
  ℕ, String, Bool, true, false, Option, none, some, if◌then◌else◌, ◌≡◌, refl, leb, ◌&&◌,
}

pub data LifecycleState : Type 0 where
  unknown : LifecycleState
  inactive : LifecycleState
  init : LifecycleState
  standby : LifecycleState
  running : LifecycleState
  suspend : LifecycleState
  terminated : LifecycleState
  error : LifecycleState

-- The values of the enumeration.
abbrev pub code : LifecycleState → ℕ
code unknown = 65
code inactive = 0
code init = 1
code standby = 2
code running = 3
code suspend = 4
code terminated = 5
code error = 66

-- to_string
abbrev pub state_to_string : LifecycleState → String
state_to_string unknown = "Unknown"
state_to_string inactive = "Inactive"
state_to_string init = "Init"
state_to_string standby = "Standby"
state_to_string running = "Running"
state_to_string suspend = "Suspend"
state_to_string terminated = "Terminated"
state_to_string error = "Error"

-- from_sv; `none` is std::invalid_argument.
unfoldable pub state_from_sv : String → Option LifecycleState
state_from_sv s =
    if str_eq s "Unknown"
    then some unknown
    else if str_eq s "Inactive"
    then some inactive
    else if str_eq s "Init"
    then some init
    else if str_eq s "Standby"
    then some standby
    else if str_eq s "Running"
    then some running
    else if str_eq s "Suspend"
    then some suspend
    else if str_eq s "Terminated"
    then some terminated
    else if str_eq s "Error"
    then some error
    else none

-- is_active
unfoldable pub is_active : LifecycleState → Bool
is_active s = leb 1 (code s) && leb (code s) 4

abbrev pub is_running : LifecycleState → Bool
is_running running = true
is_running _ = false

-- operator== on states, by their values.
abbrev pub same_state : LifecycleState → LifecycleState → Bool
same_state a b = leb (code a) (code b) && leb (code b) (code a)

pub data ProtocolType : Type 0 where
  http : ProtocolType
  coap : ProtocolType

abbrev pub protocol_to_string : ProtocolType → String
protocol_to_string http = "http"
protocol_to_string coap = "coap"

unfoldable pub protocol_from_sv : String → Option ProtocolType
protocol_from_sv s =
    if str_eq s "http" then some http else if str_eq s "coap" then some coap else none

pub record Heartbeat : Type 0 where
  pub ability_name : String
  pub version : String
  pub instance_name : String
  pub id : ℕ
  pub state : LifecycleState
  pub ipc_protocol : ProtocolType
  pub ipc_port : ℕ
  pub ability_port : ℕ

-- The names of lifecycle states and of protocols read back as what they name.
pub from_sv-to_string :
    (s : LifecycleState) (p : ProtocolType)
    → (state_from_sv (state_to_string s) ≡ some s)
      × (protocol_from_sv (protocol_to_string p) ≡ some p)
unfolding state_from_sv protocol_from_sv
from_sv-to_string s p = (of_state s, of_protocol p)
  where
    of_state : (s : LifecycleState) → state_from_sv (state_to_string s) ≡ some s
    of_state unknown = refl
    of_state inactive = refl
    of_state init = refl
    of_state standby = refl
    of_state running = refl
    of_state suspend = refl
    of_state terminated = refl
    of_state error = refl

    of_protocol : (p : ProtocolType) → protocol_from_sv (protocol_to_string p) ≡ some p
    of_protocol http = refl
    of_protocol coap = refl
