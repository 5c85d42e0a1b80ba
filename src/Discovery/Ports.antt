-- ===== src/Discovery/Ports.antt =====
-- A master that moves to another port: src/discoverymgr/discovery_mgr.cpp.
use text.Mathlib.Text.{◌==◌ as str_eq}
use text.Mathlib.TextEquality.{eq_iff}
use ability_framework.Prelude.{
  ℕ, String, true, false, Option, some, List, [], ◌∷◌, ◌≡◌, refl, ◌∙◌, arith, find, insert,
  name_key, find-insert, same_refl,
}
use ability_framework.Prelude.Int.{ℤ}
use ability_framework.Json.{
  Json, string, integer, array, object, Items, item, Fields, get_field, find_in, returned, to_int32,
}
use ability_framework.Discovery.Teams.{Master, DiscoveryManager}
use ability_framework.Discovery.Rows.{strings_of, same_texts, changed_master}
use ability_framework.Discovery.Broadcasts.{put_master, hear, parse_ipv4_broadcast}

same_texts_refl : (ss : List String) → same_texts ss ss ≡ true
unfolding same_texts
same_texts_refl [] = refl
same_texts_refl (s ∷ ss) = ground (arith, eq_iff s s, same_texts_refl ss)

-- A packet of a master of a team, with its id, name, port and addresses.
abbrev pub IsMasterPacket : (String → Option ℕ) → String → ℕ → String → ℤ → Items → Fields → Type 0
IsMasterPacket from_string id team_id name port addrs fs =
    (m : Json) × (ms : Items) × (team team_name : String) × (get_field "id" fs ≡ some (string id))
    × (get_field "master" fs ≡ some (array (item m ms)))
    × (find_in "teamID" m ≡ some (string team))
    × (find_in "teamName" m ≡ some (string team_name))
    × (from_string team ≡ some team_id)
    × (get_field "name" fs ≡ some (string name))
    × (get_field "port" fs ≡ some (integer port))
    × (get_field "ipv4" fs ≡ some (array addrs))

module _ (from_string : String → Option ℕ) (to_text : ℕ → String) (memory : ℤ) where
  put_master_moved :
      (old : Master) (id team_name : String) (team_id : ℕ) (name : String) (port : ℤ)
      (addrs : Items) (fs : Fields) (d : DiscoveryManager)
      → get_field "name" fs ≡ some (string name)
      → get_field "port" fs ≡ some (integer port)
      → get_field "ipv4" fs ≡ some (array addrs)
      → strings_of addrs ≡ old.ipv4
      → put_master from_string to_text memory (some old) id team_name team_id fs d
        ≡ returned (record d {
          team_master =
              insert id
                (changed_master name (to_int32 port) team_name team_id fs old)
                d.team_master;
        })
  put_master_moved old id team_name team_id name port addrs fs d en ep ea es =
      rw (en, ep, ea, es, same_texts_refl old.ipv4) refl

  -- A master on record, not the framework itself, broadcasts another port and the addresses that it
  -- had: its row has the new port, and every token of a team stays as it was, with the old port, to
  -- which the heartbeats of the members go on being sent.
  pub parse_ipv4_broadcast_moved :
      (old : Master) (id : String) (team_id : ℕ) (name : String) (port : ℤ) (addrs : Items)
      (fs : Fields) (d : DiscoveryManager)
      → IsMasterPacket from_string id team_id name port addrs fs
      → str_eq id (to_text d.framework_id) ≡ false
      → find id d.team_master ≡ some old
      → strings_of addrs ≡ old.ipv4
      → (d' : DiscoveryManager) × (m : Master) × (parse_ipv4_broadcast from_string to_text memory
            (some (object fs))
            d
          ≡ returned d')
        × (find id d'.team_master ≡ some m)
        × (m.port ≡ to_int32 port)
        × (d'.team_tokens ≡ d.team_tokens)
  unfolding parse_ipv4_broadcast hear changed_master
  parse_ipv4_broadcast_moved old id team_id name port addrs fs d
        (j, js, team, team_name, ei, em, et, en, ef, e1, e2, e3) own found same =
      let m : Master = changed_master name (to_int32 port) team_name team_id fs old in
      (
        record d { team_master = insert id m d.team_master },
        m,
        rw (ei, own, em, et, en, ef, found)
            (put_master_moved old id team_name team_id name port addrs fs d e1 e2 e3 same),
        find-insert id id m d.team_master ∙ rw (same_refl id) refl,
        refl,
        refl,
      )
