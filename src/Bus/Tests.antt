-- ===== src/Bus/Tests.antt =====
-- A bus with two modules, and the theorems at it.
use ability_framework.Prelude.{
  ℕ, suc, String, true, some, List, [], ◌∷◌, ◌≡◌, refl, ◌==◌, if◌then◌else◌, find, insert, name_key,
}
use ability_framework.Bus.Message.{Message, ok}
use ability_framework.Bus.Modules.{
  Bus, empty_bus, stop_all_modules, Received, returned, BusEvent, adds, removes, add_module,
  remove_module, on_bus_event, bus_after,
}
use ability_framework.Bus.Registry.{has, bus_after-stops}

abbrev name_of : ℕ → String
name_of p = if p == 1 then "TaskMgr" else "ResourceMgr"

abbrev registrations : List BusEvent
registrations = adds 1 ∷ adds 2 ∷ adds 3 ∷ removes "Absent" ∷ []

abbrev question : Message
question = record {
  header = record { id = 7; parent_id = 0; timestamp = 1; is_synchronous = true; status = ok };
  router = record {
    source = "LifecycleMgr";
    destination = "TaskMgr";
    operation = "add_task/raw";
    on_response = some 5;
  };
  content = "";
}

abbrev count : ℕ → Message → ℕ → Received × List Message × ℕ
count p m w = (returned, [], suc w)

abbrev two_modules : Bus
two_modules = record { modules = ("TaskMgr", 1) ∷ ("ResourceMgr", 2) ∷ []; stack = 1 ∷ 2 ∷ [] }

-- "Absent" is removed where it is not.
abbrev started_bus : Bus
started_bus = record { modules = ("TaskMgr", 1) ∷ ("ResourceMgr", 3) ∷ []; stack = 1 ∷ 2 ∷ 3 ∷ [] }

registered : bus_after name_of registrations (some empty_bus) ≡ some started_bus
unfolding bus_after on_bus_event add_module remove_module find insert
registered = refl

bus_after-stops_example :
    (name_of 3 ≡ "ResourceMgr") × (has 3 (stop_all_modules started_bus).0 ≡ true)
unfolding find
bus_after-stops_example =
    bus_after-stops name_of registrations started_bus "ResourceMgr" 3 registered refl
