-- ===== src/Discovery/Members.antt =====
-- Who is a member of a master's team: src/discoverymgr/discovery_mgr.cpp.
use ability_framework.Prelude.{
  ℕ, String, Bool, false, Option, some, List, [], ◌∷◌, ◌≡◌, arith, Map, find, name_key, All,
  by_cases, Bool-cases, inl, inr,
}
use ability_framework.Prelude.Int.{ℤ}
use ability_framework.Discovery.Jwt.{Claims}
use ability_framework.Discovery.Teams.{Member, DiscoveryManager, has_team, leave_team}
use ability_framework.Discovery.Broadcasts.{parse_ipv4_broadcast}
use ability_framework.Discovery.Heartbeats.{
  on_team_heartbeat, is_inactive, drop_inactive, cleanup_members,
}
use ability_framework.Discovery.Events.{
  TeamEvent, broadcast, joins, heartbeat, cleans, leaves, after_leave, Holds-after, on_team_event,
  run_team_events,
}
use ability_framework.Discovery.Tokens.{IsShown, IsAuthentic, on_team_heartbeat-IsAuthentic}
use ability_framework.Discovery.Unmoved.{parse_ipv4_broadcast-Holds, join_team-Holds}

drop_inactive-All :
    (P : Member → Type 0) (timeout now : ℕ) (ms : Map String Member)
    → All (λ e. P e.1) ms
    → All (λ e. P e.1) (drop_inactive timeout now ms)
unfolding drop_inactive
drop_inactive-All P timeout now [] h = tt
drop_inactive-All P timeout now ((id, m) ∷ ms) (p, h) =
    by_cases (All (λ (e : String × Member). P e.1)) (is_inactive timeout now m)
      (drop_inactive-All P timeout now ms h) (p, drop_inactive-All P timeout now ms h)

-- What is found after a cleaning.
find-drop_inactive :
    (timeout now : ℕ) (id : String) (m : Member) (ms : Map String Member)
    → find id ms ≡ some m
    → is_inactive timeout now m ≡ false
    → find id (drop_inactive timeout now ms) ≡ some m
unfolding find drop_inactive
find-drop_inactive timeout now id m [] e f = cc
find-drop_inactive timeout now id m ((j, n) ∷ ms) e f =
    ground (arith, e, f, find-drop_inactive timeout now id m ms)

drop_inactive-fresh :
    (timeout now : ℕ) (ms : Map String Member)
    → All (λ e. is_inactive timeout now e.1 ≡ false) (drop_inactive timeout now ms)
unfolding drop_inactive
drop_inactive-fresh timeout now [] = tt
drop_inactive-fresh timeout now ((id, m) ∷ ms) = elim (Bool-cases (is_inactive timeout now m)) [
  | inl e ↦ rw e (drop_inactive-fresh timeout now ms)
  | inr e ↦ rw e (e, drop_inactive-fresh timeout now ms)
]

-- After a cleaning no member is left whose last heartbeat is longer ago than the timeout, and a member
-- whose last heartbeat is not is found as before.
pub cleanup_members-find :
    (timeout now : ℕ) (d : DiscoveryManager)
    → All (λ e. is_inactive timeout now e.1 ≡ false) (cleanup_members timeout now d).team_member
      × ((id : String) (m : Member)
          → find id d.team_member ≡ some m
          → is_inactive timeout now m ≡ false
          → find id (cleanup_members timeout now d).team_member ≡ some m)
unfolding cleanup_members
cleanup_members-find timeout now d = (
  drop_inactive-fresh timeout now d.team_member,
  λ id m. find-drop_inactive timeout now id m d.team_member,
)

module _ (from_string : String → Option ℕ) (to_text : ℕ → String) (memory : ℤ)
    (decode : String → Option Claims) (verify : ℕ → String → String → Bool) where
  abbrev Authentic : DiscoveryManager → Type 0
  Authentic = IsAuthentic from_string to_text memory decode verify

  leave-IsAuthentic :
      (id : ℕ) (d : DiscoveryManager) → Authentic d → Authentic (after_leave d (leave_team id d))
  unfolding leave_team
  leave-IsAuthentic id d h =
      by_cases (λ o. Authentic (after_leave d o)) (has_team id d.team_tokens) h h

  on_team_event-IsAuthentic :
      (e : TeamEvent) (d : DiscoveryManager)
      → Authentic d
      → Authentic (on_team_event from_string to_text memory decode verify e d)
  unfolding on_team_event cleanup_members
  on_team_event-IsAuthentic (broadcast packet) d h =
      Holds-after Authentic d (parse_ipv4_broadcast from_string to_text memory packet d) h (
        parse_ipv4_broadcast-Holds from_string to_text memory Authentic d h (λ ts ms g. h)
          (λ id p g. h) packet)
  on_team_event-IsAuthentic (joins id jwt) d h =
      join_team-Holds from_string to_text memory Authentic d h (λ ts ms g. h) (λ id p g. h) id jwt
  on_team_event-IsAuthentic (heartbeat now body) d h =
      Holds-after Authentic d
        (on_team_heartbeat from_string to_text memory decode verify now body d) h
        (on_team_heartbeat-IsAuthentic from_string to_text memory decode verify now body d h)
  on_team_event-IsAuthentic (cleans timeout now) d h =
      drop_inactive-All
        (λ (m : Member).
          IsShown from_string to_text memory decode verify m.last_updated d.master_token.secret
            m.jwt)
        timeout now d.team_member h
  on_team_event-IsAuthentic (leaves id) d h = leave-IsAuthentic id d h

  -- Over any history of broadcasts, joins, heartbeats, cleanings and leavings, each member row of a
  -- framework holds a token that the JWT library could decode, and verified with the secret of the team
  -- that the framework is the master of, at the time of that member's last heartbeat, when the token
  -- had not ended; where this was so at the start (when there are no rows, say).
  pub run_team_events-IsAuthentic :
      (es : List TeamEvent) (d : DiscoveryManager)
      → Authentic d
      → Authentic (run_team_events from_string to_text memory decode verify es d)
  unfolding run_team_events
  run_team_events-IsAuthentic [] d h = h
  run_team_events-IsAuthentic (e ∷ es) d h =
      run_team_events-IsAuthentic es (on_team_event from_string to_text memory decode verify e d)
        (on_team_event-IsAuthentic e d h)
