-- ===== src/Discovery/Tests.antt =====
-- The theorems about src/discoverymgr/discovery_mgr.cpp at concrete inputs.
use text.Mathlib.Text.{◌==◌ as str_eq}
use ability_framework.Prelude.{
  ℕ, String, Bool, true, false, Option, none, some, List, [], ◌∷◌, ◌++◌, ◌≡◌, refl, find, name_key,
  All, if◌then◌else◌,
}
use ability_framework.Prelude.Int.{pos}
use ability_framework.Uuids.{tally_of, read_tally, read_tally-tally_of}
use ability_framework.Json.{
  Json, string, integer, array, object, Items, no_items, item, Fields, no_fields, field, returned,
  get_field, to_int32,
}
use ability_framework.Discovery.Jwt.{Claims, is_valid_jwt_token, is_expired_jwt_token}
use ability_framework.Discovery.Teams.{
  Master, Member, Peer, TeamToken, DiscoveryManager, has_team, master_of, join_team,
}
use ability_framework.Discovery.Rows.{strings_of}
use ability_framework.Discovery.Broadcasts.{parse_ipv4_broadcast}
use ability_framework.Discovery.Heartbeats.{on_team_heartbeat}
use ability_framework.Discovery.Events.{
  TeamEvent, broadcast, joins, heartbeat, cleans, leaves, run_team_events,
}
use ability_framework.Discovery.Tokens.{IsAuthentic}
use ability_framework.Discovery.Members.{run_team_events-IsAuthentic}
use ability_framework.Discovery.Peers.{IsOurs, left_after, run_team_events-IsOurs}
use ability_framework.Discovery.Packets.{Itself, master_packet, heartbeat_packet, broadcasts}
use ability_framework.Discovery.Meetings.{join_team-master_packet}
use ability_framework.Discovery.Reports.{Reports, on_team_heartbeat-heartbeat_packet}
use ability_framework.Discovery.Heard.{IsHeard, broadcasts-IsHeard}
use ability_framework.Discovery.Ports.{IsMasterPacket, parse_ipv4_broadcast_moved}

abbrev id_of : String → Option ℕ
id_of s = if str_eq s "team-5" then some 5 else none

abbrev text_of : ℕ → String
text_of n = "framework-1"

abbrev read_claims : String → Option Claims
read_claims jwt = some (record { expires_at = some 200; permanent = none })

abbrev signed_by : ℕ → String → String → Bool
signed_by at jwt secret = str_eq jwt secret

abbrev alive : Json
alive = object (
    field "id" (string "framework-3") (
      field "team"
        (array (
          item (object (field "teamID" (string "framework-1") (field "jwt" (string "s") no_fields)))
            no_items))
        no_fields))

abbrev one_address : Items
one_address = item (string "10.0.0.2") no_items

abbrev moved : Fields
moved = field "id" (string "framework-2") (
    field "name" (string "base") (
      field "port" (integer (pos 9090)) (
        field "ipv4" (array one_address) (
          field "master"
            (array (
              item
                (object
                  (field "teamID" (string "team-5") (field "teamName" (string "five") no_fields)))
                no_items))
            no_fields))))

abbrev base : Master
base = record {
  name = "base";
  port = pos 8080;
  team_name = "five";
  team_id = 5;
  ipv4 = "10.0.0.2" ∷ [];
  ipv6 = [];
}

abbrev token : TeamToken
token = record {
  team_name = "five";
  team_id = 5;
  secret = "s";
  jwt = "";
  master_port = pos 8080;
  master_ip = "10.0.0.2" ∷ [];
}

abbrev framework : DiscoveryManager
framework = record {
  framework_id = 1;
  master_token = token;
  team_tokens = token ∷ [];
  team_master = ("framework-2", base) ∷ [];
  team_member = [];
  peers = [];
}

abbrev one_day : List TeamEvent
one_day =
    broadcast (some (object moved)) ∷ joins 5 "j" ∷ heartbeat 7 (some alive) ∷ cleans 30 99 ∷ []

run_team_events-IsAuthentic_example :
    IsAuthentic id_of text_of
      (pos 0)
      read_claims
      signed_by
      (run_team_events id_of text_of (pos 0) read_claims signed_by one_day framework)
run_team_events-IsAuthentic_example =
    run_team_events-IsAuthentic id_of text_of (pos 0) read_claims signed_by one_day framework tt

-- A peer of team 5 is on record; the team is left, and the peer stays.
abbrev colleague : Peer
colleague = record {
  name = "arm";
  port = pos 8080;
  ipv4 = "10.0.0.4" ∷ [];
  ipv6 = [];
  team_name = "five";
  team_id = 5;
}

abbrev accompanied : DiscoveryManager
accompanied = record framework { peers = ("framework-4", colleague) ∷ [] }

accompanied-IsOurs : IsOurs [] accompanied
unfolding has_team
accompanied-IsOurs = (refl, tt)

abbrev last_day : List TeamEvent
last_day = broadcast (some (object moved)) ∷ leaves 5 ∷ cleans 30 99 ∷ []

run_team_events-IsOurs_example :
    IsOurs
      (left_after last_day [])
      (run_team_events id_of text_of (pos 0) read_claims signed_by last_day accompanied)
run_team_events-IsOurs_example =
    run_team_events-IsOurs id_of text_of (pos 0) read_claims signed_by last_day accompanied
      accompanied-IsOurs

moved-IsMasterPacket : IsMasterPacket id_of "framework-2" 5 "base" (pos 9090) one_address moved
unfolding get_field
moved-IsMasterPacket = (
  object (field "teamID" (string "team-5") (field "teamName" (string "five") no_fields)),
  no_items,
  "team-5",
  "five",
  refl,
  refl,
  refl,
  refl,
  refl,
  refl,
  refl,
  refl,
)

base_found : find "framework-2" framework.team_master ≡ some base
unfolding find
base_found = refl

same_addresses : strings_of one_address ≡ base.ipv4
unfolding strings_of
same_addresses = refl

parse_ipv4_broadcast_moved_example :
    (d' : DiscoveryManager) × (m : Master) × (parse_ipv4_broadcast id_of text_of
        (pos 0)
        (some (object moved))
        framework
      ≡ returned d')
    × (find "framework-2" d'.team_master ≡ some m)
    × (m.port ≡ to_int32 (pos 9090))
    × (d'.team_tokens ≡ token ∷ [])
parse_ipv4_broadcast_moved_example =
    parse_ipv4_broadcast_moved id_of text_of (pos 0) base "framework-2" 5 "base" (pos 9090)
      one_address moved framework moved-IsMasterPacket refl base_found same_addresses

abbrev itself : Itself
itself = record {
  name = "base";
  framework_id = 2;
  ipv4_addresses = "10.0.0.2" ∷ [];
  ipv6_addresses = [];
  http_port = pos 8080;
}

abbrev six : TeamToken
six = record {
  team_name = "six";
  team_id = 6;
  secret = "";
  jwt = "s";
  master_port = pos 8080;
  master_ip = [];
}

abbrev alone : DiscoveryManager
alone = record framework { team_master = [] }

no_row : find (tally_of 2) alone.team_master ≡ none
unfolding find
no_row = refl

no_master : master_of 6 alone.team_master ≡ none
unfolding master_of
no_master = refl

no_team : has_team 6 alone.team_tokens ≡ false
unfolding has_team
no_team = refl

join_team-master_packet_example :
    (d' : DiscoveryManager) × (d'' : DiscoveryManager) × (parse_ipv4_broadcast read_tally tally_of
        (pos 0)
        (some (object (master_packet tally_of itself six)))
        alone
      ≡ returned d')
    × (join_team 6 "j" d' ≡ (some true, d''))
    × (d''.team_tokens
        ≡ alone.team_tokens
          ++ record {
            team_name = "six";
            team_id = 6;
            secret = "";
            jwt = "j";
            master_port = to_int32 (pos 8080);
            master_ip = "10.0.0.2" ∷ [];
          }
            ∷ [])
join_team-master_packet_example =
    join_team-master_packet read_tally tally_of (pos 0) read_tally-tally_of itself six "j" alone
      refl no_row no_master no_team

on_team_heartbeat-heartbeat_packet_example :
    (d' : DiscoveryManager) × (m : Member) × (on_team_heartbeat read_tally tally_of
        (pos 0)
        read_claims
        signed_by
        7
        (some (object (heartbeat_packet tally_of itself (some six) (record six { team_id = 5 }))))
        framework
      ≡ returned d')
    × (find (tally_of 2) d'.team_member ≡ some m)
    × Reports itself "s" 7 m
unfolding is_valid_jwt_token is_expired_jwt_token
on_team_heartbeat-heartbeat_packet_example =
    on_team_heartbeat-heartbeat_packet read_tally tally_of (pos 0) read_claims signed_by
      read_tally-tally_of itself (some six) (record six { team_id = 5 }) 7 framework refl refl refl

broadcasts-IsHeard_example :
    All
      (IsHeard read_tally tally_of (pos 0) framework)
      (broadcasts tally_of itself (some six) (token ∷ six ∷ []))
broadcasts-IsHeard_example =
    broadcasts-IsHeard read_tally tally_of (pos 0) framework itself (some six) (token ∷ six ∷ [])
