-- ===== src/Subprocesses/Tests.antt =====
-- The theorem about the end of the framework at a short history.
use ability_framework.Prelude.{true, some, List, [], ◌∷◌, ◌≡◌}
use ability_framework.Prelude.Int.{pos}
use ability_framework.Subprocesses.{Machine, FileStat, member, on_exit, starts, controller}
use ability_framework.Subprocesses.Shutdown.{
  ProcessEvent, receives, ends, handles_after, is_running, on_exit-handles_after,
}

abbrev all_may : FileStat
all_may = record {
  st_uid = 0;
  st_gid = 0;
  owner_executes = true;
  group_executes = true;
  others_execute = true;
}

abbrev easy : Machine
easy = record {
  file_exists = λ path. true;
  stat = λ path. some all_may;
  uid = 0;
  groups = some [];
  spawn = λ path args envs. pos 0;
}

-- The last event first.
abbrev three_events : List ProcessEvent
three_events =
    ends 1
    ∷ receives 2 (controller "bin/camera.controller" "controller-vision-camera-1.0.0" "{}")
    ∷ receives 1 (starts "bin/ability" [] [] [])
    ∷ []

on_exit-handles_after_example :
    member 2 (on_exit (handles_after easy three_events)) ≡ is_running easy 2 three_events
on_exit-handles_after_example = on_exit-handles_after easy three_events 2
