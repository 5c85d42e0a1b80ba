-- ===== src/Discovery/Peers.antt =====
-- The teams of peers: src/discoverymgr/discovery_mgr.cpp.
use ability_framework.Prelude.{
  ℕ, String, Bool, true, false, ◌||◌, ◌==◌, arith, by_cases, Option, List, [], ◌∷◌, ◌≡◌, Map,
  insert, name_key, All, insert-All,
}
use ability_framework.Prelude.Int.{ℤ}
use ability_framework.Discovery.Jwt.{Claims}
use ability_framework.Discovery.Teams.{
  Peer, Master, TeamToken, DiscoveryManager, has_team, without_team, leave_team,
}
use ability_framework.Discovery.Broadcasts.{parse_ipv4_broadcast}
use ability_framework.Discovery.Heartbeats.{on_team_heartbeat, cleanup_members}
use ability_framework.Discovery.Events.{
  TeamEvent, broadcast, joins, heartbeat, cleans, leaves, after_leave, Holds-after, on_team_event,
  run_team_events,
}
use ability_framework.Discovery.Unmoved.{Grows, parse_ipv4_broadcast-Holds, join_team-Holds}
use ability_framework.Discovery.Unchecked.{on_team_heartbeat-Holds}

abbrev pub has_id : ℕ → List ℕ → Bool
has_id id [] = false
has_id id (j ∷ js) = j == id || has_id id js

-- The team of a peer is one of which there is a token, or one that was left.
abbrev IsKnown : List TeamToken → List ℕ → Peer → Type 0
IsKnown ts gone p = (has_team p.team_id ts || has_id p.team_id gone) ≡ true

-- Each peer is in a team of which we have a token, or which we have left.
abbrev pub IsOurs : List ℕ → DiscoveryManager → Type 0
IsOurs gone d =
    All (λ e. (has_team e.1.team_id d.team_tokens || has_id e.1.team_id gone) ≡ true) d.peers

-- The teams that a history asks to leave, the last first, before those that were left already.
abbrev pub left_after : List TeamEvent → List ℕ → List ℕ
left_after [] gone = gone
left_after (leaves id ∷ es) gone = left_after es (id ∷ gone)
left_after (broadcast packet ∷ es) gone = left_after es gone
left_after (joins id jwt ∷ es) gone = left_after es gone
left_after (heartbeat now body ∷ es) gone = left_after es gone
left_after (cleans timeout now ∷ es) gone = left_after es gone

All-IsKnown :
    (ts us : List TeamToken) (gone gone' : List ℕ) (ps : Map String Peer)
    → ((p : Peer) → IsKnown ts gone p → IsKnown us gone' p)
    → All (λ e. IsKnown ts gone e.1) ps
    → All (λ e. IsKnown us gone' e.1) ps
All-IsKnown ts us gone gone' [] g h = tt
All-IsKnown ts us gone gone' ((id, p) ∷ ps) g (q, h) = (g p q, All-IsKnown ts us gone gone' ps g h)

has_team-without_team :
    (id j : ℕ) (ts : List TeamToken)
    → has_team j ts ≡ true
    → (has_team j (without_team id ts) || id == j) ≡ true
unfolding has_team without_team
has_team-without_team id j [] h = cc
has_team-without_team id j (t ∷ ts) h = ground (arith, h, has_team-without_team id j ts)

left-IsKnown :
    (id : ℕ) (gone : List ℕ) (ts : List TeamToken) (p : Peer)
    → IsKnown ts gone p
    → IsKnown (without_team id ts) (id ∷ gone) p
left-IsKnown id gone ts p h = ground (arith, h, has_team-without_team id p.team_id ts)

more-IsKnown :
    (id : ℕ) (gone : List ℕ) (ts : List TeamToken) (p : Peer)
    → IsKnown ts gone p
    → IsKnown ts (id ∷ gone) p
more-IsKnown id gone ts p h = ground (arith, h)

leave_team-IsOurs :
    (id : ℕ) (gone : List ℕ) (d : DiscoveryManager)
    → IsOurs gone d
    → IsOurs (id ∷ gone) (after_leave d (leave_team id d))
unfolding leave_team
leave_team-IsOurs id gone d h =
    by_cases (λ o. IsOurs (id ∷ gone) (after_leave d o)) (has_team id d.team_tokens)
      (All-IsKnown d.team_tokens (without_team id d.team_tokens) gone (id ∷ gone) d.peers
        (left-IsKnown id gone d.team_tokens) h)
      (All-IsKnown d.team_tokens d.team_tokens gone (id ∷ gone) d.peers
        (more-IsKnown id gone d.team_tokens) h)

module _ (from_string : String → Option ℕ) (to_text : ℕ → String) (memory : ℤ)
    (decode : String → Option Claims) (verify : ℕ → String → String → Bool) where
  grown-IsKnown :
      (gone : List ℕ) (ts us : List TeamToken) (p : Peer)
      → Grows ts us
      → IsKnown ts gone p
      → IsKnown us gone p
  grown-IsKnown gone ts us p g h = ground (arith, h, g p.team_id)

  masters-IsOurs :
      (gone : List ℕ) (d : DiscoveryManager) (ts : List TeamToken) (ms : Map String Master)
      → IsOurs gone d
      → Grows d.team_tokens ts
      → IsOurs gone (record d { team_tokens = ts; team_master = ms })
  masters-IsOurs gone d ts ms h g =
      All-IsKnown d.team_tokens ts gone gone d.peers (λ p. grown-IsKnown gone d.team_tokens ts p g)
        h

  known-IsOurs :
      (gone : List ℕ) (d : DiscoveryManager) (id : String) (p : Peer)
      → IsOurs gone d
      → has_team p.team_id d.team_tokens ≡ true
      → IsOurs gone (record d { peers = insert id p d.peers })
  known-IsOurs gone d id p h e =
      insert-All (IsKnown d.team_tokens gone) id p d.peers (ground (arith, e)) h

  run_team_events-left_after :
      (es : List TeamEvent) (gone : List ℕ) (d : DiscoveryManager)
      → IsOurs gone d
      → IsOurs (left_after es gone) (run_team_events from_string to_text memory decode verify es d)
  unfolding run_team_events on_team_event cleanup_members
  run_team_events-left_after [] gone d h = h
  run_team_events-left_after (broadcast packet ∷ es) gone d h =
      run_team_events-left_after es gone _ (
        Holds-after (IsOurs gone) d (parse_ipv4_broadcast from_string to_text memory packet d) h (
          parse_ipv4_broadcast-Holds from_string to_text memory (IsOurs gone) d h
            (λ ts ms. masters-IsOurs gone d ts ms h) (λ id p. known-IsOurs gone d id p h) packet))
  run_team_events-left_after (joins id jwt ∷ es) gone d h = run_team_events-left_after es gone _ (
      join_team-Holds from_string to_text memory (IsOurs gone) d h
        (λ ts ms. masters-IsOurs gone d ts ms h) (λ i p. known-IsOurs gone d i p h) id jwt)
  run_team_events-left_after (heartbeat now body ∷ es) gone d h =
      run_team_events-left_after es gone _ (
        Holds-after (IsOurs gone) d
          (on_team_heartbeat from_string to_text memory decode verify now body d) h
          (on_team_heartbeat-Holds from_string to_text memory decode verify (IsOurs gone) now d
            (λ ms. h) body))
  run_team_events-left_after (cleans timeout now ∷ es) gone d h =
      run_team_events-left_after es gone (cleanup_members timeout now d) h
  run_team_events-left_after (leaves id ∷ es) gone d h =
      run_team_events-left_after es (id ∷ gone) (after_leave d (leave_team id d))
        (leave_team-IsOurs id gone d h)

  -- Over any history of broadcasts, joins, heartbeats, cleanings and leavings, the peers on record are
  -- all in teams of which the framework has a token, or which the history asked to leave, where at the
  -- start all were in teams of which it has a token (when there are none, say).
  pub run_team_events-IsOurs :
      (es : List TeamEvent) (d : DiscoveryManager)
      → IsOurs [] d
      → IsOurs (left_after es []) (run_team_events from_string to_text memory decode verify es d)
  run_team_events-IsOurs es d h = run_team_events-left_after es [] d h
