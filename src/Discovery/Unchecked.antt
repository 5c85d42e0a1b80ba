-- ===== src/Discovery/Unchecked.antt =====
-- What heartbeats leave as it is: src/discoverymgr/discovery_mgr.cpp.
use ability_framework.Prelude.{
  ℕ, String, Bool, not, ◌&&◌, Option, none, some, Map, find, name_key, by_cases,
}
use ability_framework.Prelude.Int.{ℤ}
use ability_framework.Json.{
  Json, string, array, object, Fields, get_field, ◌>>=◌, get_string, const_field, first,
}
use ability_framework.Discovery.Jwt.{
  Claims, is_valid_jwt_token, is_expired_jwt_token, check_token_expiration,
}
use ability_framework.Discovery.Teams.{Member, DiscoveryManager}
use ability_framework.Discovery.Rows.{new_member, changed_member}
use ability_framework.Discovery.Heartbeats.{
  on_team_heartbeat, read_heartbeat, read_team, accept_member, put_member, is_text,
}
use ability_framework.Discovery.Events.{Holds, Holds-bind}

-- What holds whatever the members are holds after a heartbeat.
module _ (from_string : String → Option ℕ) (to_text : ℕ → String) (memory : ℤ)
    (decode : String → Option Claims) (verify : ℕ → String → String → Bool)
    (P : DiscoveryManager → Type 0) (now : ℕ) (d : DiscoveryManager)
    (members : (ms : Map String Member) → P (record d { team_member = ms })) where
  put_member-Holds :
      (id : String) (fs : Fields) (o : Option Member)
      → Holds P (put_member from_string to_text memory decode verify now id fs o d)
  put_member-Holds id fs none =
      Holds-bind P (new_member from_string memory (check_token_expiration decode now) now fs) _
        (λ m _. members _)
  put_member-Holds id fs (some old) =
      Holds-bind P
        (changed_member from_string memory (check_token_expiration decode now) now fs old) _
        (λ m _. members _)

  read_team-Holds :
      (id : String) (fs : Fields) (team : Json)
      → Holds P (read_team from_string to_text memory decode verify now id fs team d)
  unfolding read_team accept_member
  read_team-Holds id fs team = Holds-bind P (const_field "teamID" team) _ (λ j _.
      by_cases (Holds P) (is_text j (to_text d.master_token.team_id))
        (Holds-bind P (const_field "jwt" team >>= λ k. get_string k) _ (λ jwt _.
          by_cases (Holds P)
            (is_valid_jwt_token decode verify now jwt d.master_token.secret
              && not (is_expired_jwt_token decode now jwt))
            (put_member-Holds id fs (find id d.team_member)) tt))
        tt)

  read_heartbeat-Holds :
      (id team : Option Json) (fs : Fields)
      → Holds P (read_heartbeat from_string to_text memory decode verify now id team fs d)
  read_heartbeat-Holds (some (string id)) (some (array xs)) fs = read_team-Holds id fs (first xs)
  read_heartbeat-Holds (some (string id)) (some other) fs = tt
  read_heartbeat-Holds (some (string id)) none fs = tt
  read_heartbeat-Holds none team fs = tt
  read_heartbeat-Holds (some other) team fs = tt

  pub on_team_heartbeat-Holds :
      (body : Option Json)
      → Holds P (on_team_heartbeat from_string to_text memory decode verify now body d)
  unfolding on_team_heartbeat
  on_team_heartbeat-Holds (some (object fs)) =
      read_heartbeat-Holds (get_field "id" fs) (get_field "team" fs) fs
  on_team_heartbeat-Holds (some other) = tt
  on_team_heartbeat-Holds none = tt
