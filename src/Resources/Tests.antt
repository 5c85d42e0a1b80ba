-- ===== src/Resources/Tests.antt =====
-- The theorems about src/resourcemgr/resource_mgr.cpp at concrete inputs.
use text.Mathlib.Text.{◌==◌ as str_eq}
use ability_framework.Prelude.{
  ℕ, ◌+◌, ◌≤◌, String, Bool, true, false, Option, none, some, List, [], ◌∷◌, ◌++◌, ◌≡◌, ◌≢◌, refl,
  arith, find, uuid_key, length, if◌then◌else◌,
}
use ability_framework.Lifecycle.Heartbeat.{Heartbeat, running, http}
use ability_framework.Lifecycle.Manager.{contains_active}
use ability_framework.Resources.Tables.{
  ability, device, unique, shared, AbilitySpec, AbilityCr, Template, DeviceCr, Resources,
  no_resources, judge_ability_exist, resolve_ability_cr_by_id, snapshot_or, get_ability_cr,
  cr_of_row, get_device_cr,
}
use ability_framework.Resources.Ownership.{select}
use ability_framework.Resources.Occupy.{
  ok, RemoteRequest, occupy, unoccupy, occupy_ability, occupy_device,
}
use ability_framework.Resources.Selected.{drop_parent}
use ability_framework.Resources.Holds.{hold_of, grant, IsExclusive}
use ability_framework.Resources.Requests.{OccupyRequest, run_requests}
use ability_framework.Resources.Exclusive.{
  IsLocal, run_hold, occupy_ability_refines, run_requests-hold,
}
use ability_framework.Resources.Routes.{get_occupation, post_occupation}
use ability_framework.Resources.Replies.{lock_reply, body_of, shows, post_occupation-get_occupation}
use ability_framework.Resources.Templates.{add_ability_cr}
use ability_framework.Resources.Stored.{stored, get_ability_cr-add_ability_cr}
use ability_framework.Resources.Devices.{occupy_device-twice}
use ability_framework.Resources.Retries.{count, retries}
use ability_framework.Resources.Session.{
  SessionEvent, starts, beats, exits, clears, deletes, Session, run_session, run_session_bounded,
}
use ability_framework.Resources.Registered.{IsRegistered, run_session-IsRegistered}

abbrev on_this_machine : String → Bool
on_this_machine place = str_eq place "localhost"

abbrev no_answer : RemoteRequest → Option Bool
no_answer q = none

abbrev camera_spec : AbilitySpec
camera_spec = record {
  ability_name = "camera";
  package_name = "vision";
  version = "1.0.0";
  position = "localhost";
  auto_start = some false;
  keep_alive = some true;
  singleton = some true;
}

abbrev camera_cr : AbilityCr
camera_cr = record { id = 7; name = "front"; spec = some camera_spec; lifecycle_state = none }

abbrev camera : Template
camera = record {
  cr_detail = camera_cr;
  instance_name = "front";
  autostart = false;
  auto_started = false;
  keep_alive = true;
  singleton = true;
}

abbrev arm : DeviceCr
arm = record { id = 9; name = "arm"; position = "localhost" }

abbrev one_camera : Resources
one_camera = record no_resources { templates = (7, camera) ∷ []; devices = (9, arm) ∷ [] }

camera-IsLocal : IsLocal on_this_machine no_answer 7 one_camera
unfolding judge_ability_exist resolve_ability_cr_by_id get_ability_cr cr_of_row snapshot_or find
camera-IsLocal = (camera_spec, refl, refl, refl)

nobody-IsExclusive : IsExclusive 7 []
unfolding select
nobody-IsExclusive = tt

occupy_ability_refines_example :
    let (res, r) = occupy_ability on_this_machine no_answer 3 "10.0.0.3" 7 unique one_camera in
    let (answer, hold) = grant 3 "10.0.0.3" unique (hold_of 7 []) in
    (res ≡ answer) × (hold_of 7 r.ownership ≡ hold) × IsExclusive 7 r.ownership
occupy_ability_refines_example =
    occupy_ability_refines on_this_machine no_answer 3 "10.0.0.3" 7 unique one_camera camera-IsLocal
      nobody-IsExclusive

abbrev id_of : String → Option ℕ
id_of text =
    if str_eq text "camera-7" then some 7 else if str_eq text "robot-3" then some 3 else none

abbrev small : String → String
small text = if str_eq text "Unique" then "unique" else text

post_occupation-get_occupation_example :
    let (reply, r) =
      post_occupation id_of small on_this_machine no_answer "camera-7"
        (some (body_of "robot-3" "Unique" "10.0.0.3"))
        one_camera in
    (reply ≡ lock_reply 3 unique (hold_of 7 []))
    × (get_occupation id_of "camera-7" r ≡ shows (grant 3 "10.0.0.3" unique (hold_of 7 [])).1)
post_occupation-get_occupation_example =
    post_occupation-get_occupation id_of small on_this_machine no_answer "camera-7" "robot-3"
      "Unique" "10.0.0.3" 7 3 unique one_camera refl refl refl camera-IsLocal nobody-IsExclusive

abbrev two_requests : List OccupyRequest
two_requests =
    record {
      method = occupy;
      kind = ability;
      parent = 3;
      position = "10.0.0.3";
      child = 7;
      mode = unique;
    }
    ∷ record {
      method = unoccupy;
      kind = ability;
      parent = 3;
      position = "10.0.0.3";
      child = 7;
      mode = unique;
    }
    ∷ []

run_requests-hold_example :
    let r = run_requests on_this_machine no_answer two_requests one_camera in
    (hold_of 7 r.ownership ≡ run_hold 7 two_requests (hold_of 7 [])) × IsExclusive 7 r.ownership
run_requests-hold_example =
    run_requests-hold on_this_machine no_answer 7 two_requests one_camera camera-IsLocal
      (λ h. cc, (λ h. cc, tt)) nobody-IsExclusive

device_here : get_device_cr 9 one_camera ≡ some arm
unfolding get_device_cr find
device_here = refl

no_rows : (select device 9 device unique [] ≡ []) × (select ability 9 ability shared [] ≡ [])
unfolding select
no_rows = (refl, refl)

occupy_device-twice_example :
    let r = (occupy_device on_this_machine no_answer 3 "10.0.0.3" 9 unique one_camera).1 in
    let (res, r') = occupy_device on_this_machine no_answer 4 "10.0.0.4" 9 unique r in
    (res ≡ ok)
    × (select ability 9 ability unique r'.ownership
        ≡ drop_parent 4 (drop_parent 3 (select ability 9 ability unique []))
          ++ ((3, "10.0.0.3") ∷ (4, "10.0.0.4") ∷ []))
occupy_device-twice_example =
    occupy_device-twice on_this_machine no_answer 3 4 "10.0.0.3" "10.0.0.4" 9 one_camera
      (arm, device_here, refl) no_rows (omega arith)

abbrev next_id : Resources → ℕ
next_id r = 100 + length r.instances

abbrev no_text : ℕ → String
no_text n = ""

abbrev noon : Resources → ℕ
noon r = 43200

abbrev report : Heartbeat
report = record {
  ability_name = "camera";
  version = "1.0.0";
  instance_name = "front";
  id = 100;
  state = running;
  ipc_protocol = http;
  ipc_port = 9000;
  ability_port = 9001;
}

abbrev at_first : Session
at_first = record { resources = one_camera; heartbeats = []; made = [] }

abbrev a_day : List SessionEvent
a_day =
    starts (λ t. 20) (λ t. 21)
    ∷ beats 22 report
    ∷ starts (λ t. 30) (λ t. 30)
    ∷ exits 100 none
    ∷ starts (λ t. 50) (λ t. 51)
    ∷ clears 99000
    ∷ deletes 101
    ∷ []

run_session_bounded_example :
    let s = run_session next_id no_text noon no_text (λ u. none) a_day at_first in
    (count 7 s.made ≤ 3) × (retries 7 s.resources ≡ count 7 s.made)
run_session_bounded_example =
    run_session_bounded next_id no_text noon no_text (λ u. none) 7 a_day at_first refl refl

nothing_active : IsRegistered 100 at_first
unfolding contains_active find
nothing_active h = cc

run_session-IsRegistered_example :
    IsRegistered 100 (run_session next_id no_text noon no_text (λ u. none) a_day at_first)
run_session-IsRegistered_example =
    run_session-IsRegistered next_id no_text noon no_text (λ u. none) 100 a_day at_first
      (tt, (tt, (tt, (tt, (tt, (tt, ((λ e. absurd (omega (arith, e))), tt))))))) nothing_active

get_ability_cr-add_ability_cr_example :
    (id : ℕ) × (r : Resources) × (add_ability_cr 8 camera_cr one_camera ≡ some (id, r))
    × (get_ability_cr id r ≡ some (stored id camera_cr camera_spec))
    × ((j : ℕ) → j ≢ id → get_ability_cr j r ≡ get_ability_cr j one_camera)
    × ((again : ℕ) → (r'' : Resources) × (add_ability_cr again camera_cr r ≡ some (id, r'')))
get_ability_cr-add_ability_cr_example =
    get_ability_cr-add_ability_cr 8 camera_cr camera_spec one_camera refl
