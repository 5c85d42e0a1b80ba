-- ===== src/Discovery/Heard.antt =====
-- What a framework hears of others of its kind: src/discoverymgr/discovery_mgr.cpp.
use text.Mathlib.Text.{◌==◌ as str_eq}
use ability_framework.Prelude.{
  ℕ, String, Bool, true, false, Option, none, some, List, [], ◌∷◌, ◌≡◌, refl, All, All-append, find,
  name_key,
}
use ability_framework.Prelude.Int.{ℤ}
use ability_framework.Json.{object, Fields, get_field, returned}
use ability_framework.Discovery.Teams.{Master, TeamToken, DiscoveryManager}
use ability_framework.Discovery.Broadcasts.{
  put_master, hear_master_team, hear_from, hear, parse_ipv4_broadcast,
}
use ability_framework.Discovery.Packets.{
  Itself, master_packet, peer_packet, peer_packets, master_packets, broadcasts,
}

module _ (from_string : String → Option ℕ) (to_text : ℕ → String) (memory : ℤ)
    (d : DiscoveryManager) where
  -- A packet at whose reading no exception is thrown.
  abbrev pub IsHeard : Fields → Type 0
  IsHeard fs =
      (d' : DiscoveryManager) × (parse_ipv4_broadcast from_string to_text memory (some (object fs))
          d
        ≡ returned d')

  put_master-returned :
      (f : Itself) (team : TeamToken) (id : String) (n : ℕ) (known : Option Master)
      → (d' : DiscoveryManager) × (put_master from_string to_text memory known id team.team_name n
            (master_packet to_text f team)
            d
          ≡ returned d')
  unfolding master_packet get_field
  put_master-returned f team id n none = (_, refl)
  put_master-returned f team id n (some old) = (_, refl)

  hear_master_team-returned :
      (f : Itself) (team : TeamToken) (id : String) (team_id : Option ℕ)
      → (d' : DiscoveryManager) × (hear_master_team from_string to_text memory id team_id
            team.team_name
            (master_packet to_text f team)
            d
          ≡ returned d')
  hear_master_team-returned f team id none = (d, refl)
  hear_master_team-returned f team id (some n) =
      put_master-returned f team id n (find id d.team_master)

  hear-returned :
      (fs : Fields) (id : String) (own : Bool)
      → str_eq id (to_text d.framework_id) ≡ own
      → (d' : DiscoveryManager) × (hear_from from_string to_text memory id
            (get_field "master" fs)
            fs
            d
          ≡ returned d')
      → (d' : DiscoveryManager) × (hear from_string to_text memory id fs d ≡ returned d')
  unfolding hear
  hear-returned fs id true e (d', h) = (d, rw e refl)
  hear-returned fs id false e (d', h) = (d', rw e h)

  peer_packet-IsHeard : (f : Itself) (team : TeamToken) → IsHeard (peer_packet to_text f team)
  unfolding parse_ipv4_broadcast peer_packet get_field
  peer_packet-IsHeard f team =
      hear-returned (peer_packet to_text f team) (to_text f.framework_id) _ refl (_, refl)

  master_packet-IsHeard : (f : Itself) (team : TeamToken) → IsHeard (master_packet to_text f team)
  unfolding parse_ipv4_broadcast master_packet get_field
  master_packet-IsHeard f team =
      hear-returned (master_packet to_text f team) (to_text f.framework_id) _ refl (
        hear_master_team-returned f team (to_text f.framework_id)
          (from_string (to_text team.team_id)))

  peer_packets-IsHeard :
      (f : Itself) (ts : List TeamToken) → All IsHeard (peer_packets to_text f ts)
  unfolding peer_packets
  peer_packets-IsHeard f [] = tt
  peer_packets-IsHeard f (t ∷ ts) = (peer_packet-IsHeard f t, peer_packets-IsHeard f ts)

  master_packets-IsHeard :
      (f : Itself) (own : Option TeamToken) → All IsHeard (master_packets to_text f own)
  master_packets-IsHeard f none = tt
  master_packets-IsHeard f (some own) = (master_packet-IsHeard f own, tt)

  -- Whatever another framework (or this one) broadcasts in a round of its timer, as a master or not and
  -- for whatever teams, is read without an exception in every state, whether the sender and its
  -- teams are known or not.
  pub broadcasts-IsHeard :
      (f : Itself) (own : Option TeamToken) (ts : List TeamToken)
      → All IsHeard (broadcasts to_text f own ts)
  unfolding broadcasts
  broadcasts-IsHeard f own ts =
      All-append IsHeard (peer_packets to_text f ts) (master_packets to_text f own)
        (peer_packets-IsHeard f ts) (master_packets-IsHeard f own)
