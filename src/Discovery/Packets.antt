-- ===== src/Discovery/Packets.antt =====
-- What frameworks send: the packets of start_sending and send_team_data of
-- src/discoverymgr/discovery_mgr.cpp.
use ability_framework.Prelude.{ℕ, String, Option, none, some, List, [], ◌∷◌, ◌++◌}
use ability_framework.Prelude.Int.{ℤ}
use ability_framework.Json.{
  Json, integer, string, array, object, Items, no_items, item, Fields, no_fields, field,
}
use ability_framework.Discovery.Teams.{TeamToken}

-- What a framework tells of itself.
pub record Itself : Type 0 where
  pub name : String
  pub framework_id : ℕ
  pub ipv4_addresses : List String
  pub ipv6_addresses : List String
  pub http_port : ℤ

unfoldable pub texts_of : List String → Items
texts_of [] = no_items
texts_of (s ∷ ss) = item (string s) (texts_of ss)

module _ (to_text : ℕ → String) where
  abbrev pub about : Itself → Fields → Fields
  about f more = field "name" (string f.name) (
      field "id" (string (to_text f.framework_id)) (
        field "ipv4" (array (texts_of f.ipv4_addresses)) (
          field "ipv6" (array (texts_of f.ipv6_addresses))
            (field "port" (integer f.http_port) more))))

  abbrev pub named_team : TeamToken → Fields → Json
  named_team t more =
      object
        (field "teamName" (string t.team_name) (field "teamID" (string (to_text t.team_id)) more))

  -- The broadcast of the master of a team.
  unfoldable pub master_packet : Itself → TeamToken → Fields
  master_packet f team =
      about f (field "master" (array (item (named_team team no_fields) no_items)) no_fields)

  -- The broadcast of a member, or of a master, for a team that it has joined.
  unfoldable pub peer_packet : Itself → TeamToken → Fields
  peer_packet f team = about f (
      field "teamName" (string team.team_name)
        (field "teamID" (string (to_text team.team_id)) no_fields))

  -- The heartbeat for a team, of a framework that is the master of a team or of none.
  abbrev pub mastered : Option TeamToken → Fields
  mastered none = no_fields
  mastered (some own) = field "master" (array (item (named_team own no_fields) no_items)) no_fields

  unfoldable pub heartbeat_packet : Itself → Option TeamToken → TeamToken → Fields
  heartbeat_packet f own team = about f (
      field "team"
        (array (item (named_team team (field "jwt" (string team.jwt) no_fields)) no_items))
        (mastered own))

  -- send_team_data: the heartbeats in their order, each with the token whose master it is for.
  unfoldable pub send_team_data :
      Itself → Option TeamToken → List TeamToken → List (TeamToken × Fields)
  send_team_data f own [] = []
  send_team_data f own (t ∷ ts) = (t, heartbeat_packet f own t) ∷ send_team_data f own ts

  -- start_sending: the broadcasts of one round of its timer.
  abbrev pub master_packets : Itself → Option TeamToken → List Fields
  master_packets f none = []
  master_packets f (some own) = master_packet f own ∷ []

  unfoldable pub peer_packets : Itself → List TeamToken → List Fields
  peer_packets f [] = []
  peer_packets f (t ∷ ts) = peer_packet f t ∷ peer_packets f ts

  unfoldable pub broadcasts : Itself → Option TeamToken → List TeamToken → List Fields
  broadcasts f own ts = peer_packets f ts ++ master_packets f own
