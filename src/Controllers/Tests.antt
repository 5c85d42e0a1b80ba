-- ===== src/Controllers/Tests.antt =====
-- The theorem about the starts of controllers at two instances of one ability.
use Prim.Native.String.{◌++◌ as str_append}
use ability_framework.Prelude.{find, name_key, ℕ, String, true, none, some, [], ◌∷◌, ◌≡◌, refl}
use ability_framework.Lifecycle.Heartbeat.{running, http}
use ability_framework.Lifecycle.Manager.{Entry, Heartbeats}
use ability_framework.Subprocesses.{controller}
use ability_framework.Prelude.Int.{pos}
use ability_framework.Subprocesses.{ProcessRequest}
use ability_framework.Controllers.{
  ControllerEntry, AbilityClassInfo, controller_id_of, fetch_and_check_abilities,
}
use ability_framework.Controllers.Starts.{fetch_and_check_abilities-copies}

abbrev camera_class : AbilityClassInfo
camera_class = record { ability_package_name = "vision"; ability_version = "1.0.0" }

abbrev entry_of : ℕ → Entry
entry_of id = record {
  heartbeat = record {
    ability_name = "camera";
    version = "1.0.0";
    instance_name = "front";
    id = id;
    state = running;
    ipc_protocol = http;
    ipc_port = 9000;
    ability_port = 9001;
  };
  last_update = 0;
  last_connect = none;
  client = none;
}

abbrev two_instances : Heartbeats
two_instances = (1, entry_of 1) ∷ (2, entry_of 2) ∷ []

abbrev in_bin : AbilityClassInfo → String → String
in_bin c name = str_append "bin/" name

-- Its controller has been silent for thirty seconds.
abbrev silent : ControllerEntry
silent = record {
  heartbeat = record {
    port = pos 9000;
    controller_instance_id = controller_id_of camera_class "camera";
    package_name = "camera";
    version = "1.0.0";
    ability_name = "camera";
    protocol = "http";
  };
  last_update = 70;
}

abbrev start_camera : ProcessRequest
start_camera =
    controller (in_bin camera_class "camera") (controller_id_of camera_class "camera") "{}"

fetch_and_check_abilities-copies_example :
    fetch_and_check_abilities in_bin
      (λ path. true)
      "{}"
      (λ id. some camera_class)
      (λ id. 100)
      two_instances
      ((controller_id_of camera_class "camera", silent) ∷ [])
    ≡ start_camera ∷ start_camera ∷ []
unfolding find controller_id_of
fetch_and_check_abilities-copies_example =
    fetch_and_check_abilities-copies in_bin (λ path. true) "{}" (λ id. some camera_class)
      camera_class "camera" 100 two_instances
      ((controller_id_of camera_class "camera", silent) ∷ []) refl
      ((refl, refl), ((refl, refl), tt))
