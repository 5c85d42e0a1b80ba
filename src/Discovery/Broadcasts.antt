-- ===== src/Discovery/Broadcasts.antt =====
-- parse_ipv4_broadcast of src/discoverymgr/discovery_mgr.cpp.
use text.Mathlib.Text.{◌==◌ as str_eq}
use ability_framework.Prelude.{ℕ, String, Option, none, some, if◌then◌else◌, find, insert, name_key}
use ability_framework.Prelude.Int.{ℤ}
use ability_framework.Json.{
  Json, string, array, object, Fields, get_field, find_in, Try, returned, ◌>>=◌, get_string,
  get_int, const_field, first,
}
use ability_framework.Discovery.Teams.{Master, Peer, DiscoveryManager, has_team}
use ability_framework.Discovery.Rows.{
  tell_if_array, new_master, new_peer, tell_if_moved, changed_master, changed_peer,
}

-- How a uuid is read and written, the bits of a fresh int.
module _ (from_string : String → Option ℕ) (to_text : ℕ → String) (memory : ℤ) where
  -- The broadcast of a master: the row is made or changed. A change reads the name and the port of a
  -- const document, where they have to be.
  abbrev pub put_master :
      Option Master → String → String → ℕ → Fields → DiscoveryManager → Try DiscoveryManager
  put_master none id team_name team_id fs d =
      let m = new_master memory team_name team_id fs in
      returned (record d {
        team_tokens = tell_if_array (get_field "ipv4" fs) m d.team_tokens;
        team_master = insert id m d.team_master;
      })
  put_master (some old) id team_name team_id fs d = const_field "name" (object fs) >>= λ n.
      get_string n >>= λ name. const_field "port" (object fs) >>= λ p. get_int p >>= λ port.
      returned (record d {
        team_tokens = tell_if_moved (get_field "ipv4" fs) old team_id port d.team_tokens;
        team_master = insert id (changed_master name port team_name team_id fs old) d.team_master;
      })

  abbrev pub hear_master_team :
      String → Option ℕ → String → Fields → DiscoveryManager → Try DiscoveryManager
  hear_master_team id none team_name fs d = returned d
  hear_master_team id (some team_id) team_name fs d =
      put_master (find id d.team_master) id team_name team_id fs d

  abbrev pub hear_master :
      String → Option Json → Option Json → Fields → DiscoveryManager → Try DiscoveryManager
  hear_master id (some team) (some name) fs d = get_string team >>= λ team_id.
      get_string name >>= λ team_name. hear_master_team id (from_string team_id) team_name fs d
  hear_master id _ _ fs d = returned d

  -- The broadcast of a peer, which is heard only in a team of ours.
  abbrev pub peer_row : Option Peer → ℕ → Fields → Peer
  peer_row none team_id fs = new_peer memory team_id fs
  peer_row (some old) team_id fs = changed_peer team_id fs old

  abbrev pub put_peer : String → Option ℕ → Fields → DiscoveryManager → DiscoveryManager
  put_peer id none fs d = d
  put_peer id (some team_id) fs d =
      if has_team team_id d.team_tokens
      then record d { peers = insert id (peer_row (find id d.peers) team_id fs) d.peers }
      else d

  abbrev pub hear_peer : String → Option Json → Fields → DiscoveryManager → DiscoveryManager
  hear_peer id (some (string team)) fs d = put_peer id (from_string team) fs d
  hear_peer id _ fs d = d

  abbrev pub hear_from : String → Option Json → Fields → DiscoveryManager → Try DiscoveryManager
  hear_from id (some (array xs)) fs d =
      hear_master id (find_in "teamID" (first xs)) (find_in "teamName" (first xs)) fs d
  hear_from id _ fs d = returned (hear_peer id (get_field "teamID" fs) fs d)

  -- A packet of our own is dropped.
  unfoldable pub hear : String → Fields → DiscoveryManager → Try DiscoveryManager
  hear id fs d =
      if str_eq id (to_text d.framework_id)
      then returned d
      else hear_from id (get_field "master" fs) fs d

  abbrev pub hear_id : Option Json → Fields → DiscoveryManager → Try DiscoveryManager
  hear_id none fs d = returned d
  hear_id (some j) fs d = get_string j >>= λ id. hear id fs d

  -- From the document of a packet; `none` is a packet that is no JSON, whose exception is the one
  -- that the function catches.
  unfoldable pub parse_ipv4_broadcast : Option Json → DiscoveryManager → Try DiscoveryManager
  parse_ipv4_broadcast (some (object fs)) d = hear_id (get_field "id" fs) fs d
  parse_ipv4_broadcast _ d = returned d
