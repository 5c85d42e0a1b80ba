-- ===== src/Discovery/Rows.antt =====
-- The rows that are made from documents: create_master_info, update_master_info and the like of
-- src/discoverymgr/discovery_mgr.cpp.
use text.Mathlib.Text.{◌==◌ as str_eq}
use ability_framework.Prelude.{
  ℕ, String, Bool, true, false, ◌&&◌, Option, none, some, List, [], ◌∷◌, if◌then◌else◌,
}
use ability_framework.Prelude.Int.{ℤ}
use ability_framework.Json.{
  Json, null, integer, string, array, Items, no_items, item, Fields, get_field, find_in,
  other_exception, Try, returned, failed, ◌>>=◌, get_string, const_field, to_int32, first,
}
use ability_framework.Discovery.Teams.{Master, Member, Peer, TeamToken, tell_master}

-- A field that is a text, an integer, or a list, of which the texts are read; or else what was there.
abbrev pub text_or : String → Option Json → String
text_or s (some (string t)) = t
text_or s _ = s

abbrev pub int_or : ℤ → Option Json → ℤ
int_or n (some (integer m)) = to_int32 m
int_or n _ = n

unfoldable pub strings_of : Items → List String
strings_of no_items = []
strings_of (item (string s) xs) = s ∷ strings_of xs
strings_of (item _ xs) = strings_of xs

abbrev pub strings_or : List String → Option Json → List String
strings_or ss (some (array xs)) = strings_of xs
strings_or ss _ = ss

unfoldable pub same_texts : List String → List String → Bool
same_texts [] [] = true
same_texts (s ∷ ss) (t ∷ ts) = str_eq s t && same_texts ss ts
same_texts _ _ = false

-- The tokens of the team of a new master.
abbrev pub tell_if_array : Option Json → Master → List TeamToken → List TeamToken
tell_if_array (some (array xs)) m ts = tell_master m.team_id m.ipv4 m.port ts
tell_if_array _ m ts = ts

-- A new row begins with texts and lists that are empty, with the nil uuid, and with whatever the
-- memory of its int holds.
module _ (memory : ℤ) where
  -- create_master_info
  unfoldable pub new_master : String → ℕ → Fields → Master
  new_master team_name team_id fs = record {
    name = text_or "" (get_field "name" fs);
    port = int_or memory (get_field "port" fs);
    team_name = team_name;
    team_id = team_id;
    ipv4 = strings_or [] (get_field "ipv4" fs);
    ipv6 = strings_or [] (get_field "ipv6" fs);
  }

  -- create_peer_info
  unfoldable pub new_peer : ℕ → Fields → Peer
  new_peer team_id fs = record {
    name = text_or "" (get_field "name" fs);
    port = int_or memory (get_field "port" fs);
    ipv4 = strings_or [] (get_field "ipv4" fs);
    ipv6 = strings_or [] (get_field "ipv6" fs);
    team_name = text_or "" (get_field "teamName" fs);
    team_id = team_id;
  }

-- update_master_info, from the name and the port that it reads: the row, and the tokens of its team,
-- which are told only if the addresses are others than before.
abbrev pub tell_if_moved : Option Json → Master → ℕ → ℤ → List TeamToken → List TeamToken
tell_if_moved (some (array xs)) old team_id port ts =
    if same_texts old.ipv4 (strings_of xs) then ts else tell_master team_id (strings_of xs) port ts
tell_if_moved _ old team_id port ts = ts

unfoldable pub changed_master : String → ℤ → String → ℕ → Fields → Master → Master
changed_master name port team_name team_id fs old = record {
  name = name;
  port = port;
  team_name = team_name;
  team_id = team_id;
  ipv4 = strings_or old.ipv4 (get_field "ipv4" fs);
  ipv6 = strings_or old.ipv6 (get_field "ipv6" fs);
}

-- update_peer_info
unfoldable pub changed_peer : ℕ → Fields → Peer → Peer
changed_peer team_id fs old = record {
  name = text_or old.name (get_field "name" fs);
  port = int_or old.port (get_field "port" fs);
  ipv4 = strings_or old.ipv4 (get_field "ipv4" fs);
  ipv6 = strings_or old.ipv6 (get_field "ipv6" fs);
  team_name = text_or old.team_name (get_field "teamName" fs);
  team_id = team_id;
}

-- `data["team"][0]["jwt"]`
abbrev pub team_of : Option Json → Json
team_of (some (array xs)) = first xs
team_of _ = null

unfoldable pub jwt_of : Fields → Try String
jwt_of fs = const_field "jwt" (team_of (get_field "team" fs)) >>= λ j. get_string j

-- The master's team in the heartbeat of a member: the last of the list that has both fields.
module _ (from_string : String → Option ℕ) where
  abbrev pub known_team : Option ℕ → String → Try (String × ℕ)
  known_team none name = failed other_exception
  known_team (some id) name = returned (name, id)

  abbrev pub master_team : Option Json → Option Json → String × ℕ → Try (String × ℕ)
  master_team (some id) (some name) team =
      get_string id >>= λ i. get_string name >>= λ n. known_team (from_string i) n
  master_team _ _ team = returned team

  unfoldable pub master_teams : Items → String × ℕ → Try (String × ℕ)
  master_teams no_items team = returned team
  master_teams (item x xs) team =
      master_team (find_in "teamID" x) (find_in "teamName" x) team >>= λ t. master_teams xs t

  abbrev pub master_teams_in : Option Json → Try (String × ℕ)
  master_teams_in (some (array xs)) = master_teams xs ("", 0)
  master_teams_in _ = returned ("", 0)

  module _ (memory : ℤ) (check_token_expiration : String → ℤ) (now : ℕ) where
    -- create_member_info
    unfoldable pub new_member : Fields → Try Member
    new_member fs = master_teams_in (get_field "master" fs) >>= λ team. jwt_of fs >>= λ jwt.
        returned (record {
          name = text_or "" (get_field "name" fs);
          port = int_or memory (get_field "port" fs);
          jwt = jwt;
          expiry = check_token_expiration jwt;
          last_updated = now;
          ipv4 = strings_or [] (get_field "ipv4" fs);
          ipv6 = strings_or [] (get_field "ipv6" fs);
          master_team_name = team.0;
          master_team_id = team.1;
        })

    -- update_member_info
    unfoldable pub changed_member : Fields → Member → Try Member
    changed_member fs old = jwt_of fs >>= λ jwt. returned (record old {
      name = text_or old.name (get_field "name" fs);
      port = int_or old.port (get_field "port" fs);
      jwt = jwt;
      expiry = check_token_expiration jwt;
      last_updated = now;
      ipv4 = strings_or old.ipv4 (get_field "ipv4" fs);
      ipv6 = strings_or old.ipv6 (get_field "ipv6" fs);
    })
