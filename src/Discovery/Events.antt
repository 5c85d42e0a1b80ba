-- ===== src/Discovery/Events.antt =====
-- Histories of what a framework hears of its teams: src/discoverymgr/discovery_mgr.cpp.
use ability_framework.Prelude.{ℕ, String, Bool, Option, none, some, List, [], ◌∷◌, ◌≡◌, refl}
use ability_framework.Prelude.Int.{ℤ}
use ability_framework.Json.{Json, Try, returned, failed, ◌>>=◌}
use ability_framework.Discovery.Jwt.{Claims}
use ability_framework.Discovery.Teams.{DiscoveryManager, join_team, leave_team}
use ability_framework.Discovery.Broadcasts.{parse_ipv4_broadcast}
use ability_framework.Discovery.Heartbeats.{on_team_heartbeat, cleanup_members}

pub data TeamEvent : Type 0 where
  broadcast : Option Json → TeamEvent
  joins : ℕ → String → TeamEvent
  heartbeat : ℕ → Option Json → TeamEvent
  cleans : ℕ → ℕ → TeamEvent
  leaves : ℕ → TeamEvent

-- The state after a step. An exception of a route is answered, and leaves it; one of a broadcast ends
-- the framework, after which nothing changes.
abbrev pub after : DiscoveryManager → Try DiscoveryManager → DiscoveryManager
after d (returned d') = d'
after d (failed e) = d

abbrev pub after_leave : DiscoveryManager → Option DiscoveryManager → DiscoveryManager
after_leave d none = d
after_leave d (some d') = d'

-- What is returned satisfies a predicate.
abbrev pub Holds : (DiscoveryManager → Type 0) → Try DiscoveryManager → Type 0
Holds P (returned d) = P d
Holds P (failed e) = Unit {0}

pub Holds-bind :
    {A : Type 0} (P : DiscoveryManager → Type 0) (m : Try A) (f : A → Try DiscoveryManager)
    → ((a : A) → m ≡ returned a → Holds P (f a))
    → Holds P (m >>= f)
Holds-bind P (returned a) f h = h a refl
Holds-bind P (failed e) f h = tt

pub Holds-after :
    (P : DiscoveryManager → Type 0) (d : DiscoveryManager) (t : Try DiscoveryManager)
    → P d
    → Holds P t
    → P (after d t)
Holds-after P d (returned d') p h = h
Holds-after P d (failed e) p h = p

module _ (from_string : String → Option ℕ) (to_text : ℕ → String) (memory : ℤ)
    (decode : String → Option Claims) (verify : ℕ → String → String → Bool) where
  unfoldable pub on_team_event : TeamEvent → DiscoveryManager → DiscoveryManager
  on_team_event (broadcast packet) d =
      after d (parse_ipv4_broadcast from_string to_text memory packet d)
  on_team_event (joins id jwt) d = (join_team id jwt d).1
  on_team_event (heartbeat now body) d =
      after d (on_team_heartbeat from_string to_text memory decode verify now body d)
  on_team_event (cleans timeout now) d = cleanup_members timeout now d
  on_team_event (leaves id) d = after_leave d (leave_team id d)

  unfoldable pub run_team_events : List TeamEvent → DiscoveryManager → DiscoveryManager
  run_team_events [] d = d
  run_team_events (e ∷ es) d = run_team_events es (on_team_event e d)
