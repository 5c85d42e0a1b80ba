-- ===== src/Alerts/Tests.antt =====
-- The theorem about the store of alerts at two alerts and a repetition.
use ability_framework.Prelude.{ℕ, String, Bool, ◌&&◌, ◌==◌, List, [], ◌∷◌}
use text.Mathlib.Text.{◌==◌ as str_eq}
use ability_framework.Prelude.Int.{pos, negsuc}
use ability_framework.Lifecycle.Heartbeat.{Heartbeat, running, http}
use ability_framework.Alerts.{AbilityAlert, fatal}

abbrev camera : Heartbeat
camera = record {
  ability_name = "camera";
  version = "1.0.0";
  instance_name = "front";
  id = 7;
  state = running;
  ipc_protocol = http;
  ipc_port = 9000;
  ability_port = 9001;
}

abbrev overheated : AbilityAlert ℕ
overheated = record {
  code = negsuc 3;
  message = "overheated";
  error_operation = "capture";
  level = fatal;
  time = "2026-01-01 10:00:00";
  ability_info = camera;
  detail = 0;
  context = 0;
  location = record { file = "main.py"; line = pos 12; function = "capture" };
}

abbrev later_one : AbilityAlert ℕ
later_one = record overheated { time = "2026-01-01 10:05:00" }

-- An order of the two times above.
unfoldable earlier : String → String → Bool
earlier s t = str_eq s "2026-01-01 10:00:00" && str_eq t "2026-01-01 10:05:00"

abbrev three_alerts : List (AbilityAlert ℕ)
three_alerts = overheated ∷ later_one ∷ overheated ∷ []
