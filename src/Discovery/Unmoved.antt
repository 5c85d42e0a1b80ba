-- ===== src/Discovery/Unmoved.antt =====
-- What broadcasts and joins leave as it is: src/discoverymgr/discovery_mgr.cpp.
use text.Mathlib.Text.{◌==◌ as str_eq}
use ability_framework.Prelude.{
  ℕ, String, Bool, true, Option, none, some, List, [], ◌∷◌, ◌++◌, ◌≡◌, refl, ◌∙◌, arith, Map, find,
  insert, name_key, by_cases, Bool-cases, inl, inr,
}
use ability_framework.Prelude.Int.{ℤ}
use ability_framework.Json.{
  Json, string, array, object, Fields, get_field, find_in, get_string, get_int, const_field, first,
}
use ability_framework.Discovery.Teams.{
  Master, Peer, TeamToken, DiscoveryManager, join_team, join_master, master_of, has_team,
  tell_master, token_of,
}
use ability_framework.Discovery.Rows.{
  tell_if_array, tell_if_moved, same_texts, strings_of, new_master, new_peer, changed_peer,
}
use ability_framework.Discovery.Broadcasts.{
  put_master, peer_row, hear_master_team, hear_master, put_peer, hear_peer, hear_from, hear,
  hear_id, parse_ipv4_broadcast,
}
use ability_framework.Discovery.Events.{Holds, Holds-bind}

-- Every team of the first tokens is one of the others.
abbrev pub Grows : List TeamToken → List TeamToken → Type 0
Grows ts us = (id : ℕ) → has_team id ts ≡ true → has_team id us ≡ true

has_team-tell_master :
    (id : ℕ) (ip : List String) (port : ℤ) (ts : List TeamToken) (j : ℕ)
    → has_team j (tell_master id ip port ts) ≡ has_team j ts
unfolding has_team tell_master
has_team-tell_master id ip port [] j = refl
has_team-tell_master id ip port (t ∷ ts) j = ground (arith, has_team-tell_master id ip port ts j)

tell_master-Grows :
    (id : ℕ) (ip : List String) (port : ℤ) (ts : List TeamToken)
    → Grows ts (tell_master id ip port ts)
tell_master-Grows id ip port ts j h = has_team-tell_master id ip port ts j ∙ h

tell_if_array-Grows :
    (o : Option Json) (m : Master) (ts : List TeamToken) → Grows ts (tell_if_array o m ts)
tell_if_array-Grows (some (array xs)) m ts = tell_master-Grows m.team_id m.ipv4 m.port ts
tell_if_array-Grows (some other) m ts = λ j h. h
tell_if_array-Grows none m ts = λ j h. h

tell_if_moved-Grows :
    (o : Option Json) (old : Master) (id : ℕ) (port : ℤ) (ts : List TeamToken)
    → Grows ts (tell_if_moved o old id port ts)
tell_if_moved-Grows (some (array xs)) old id port ts =
    by_cases (Grows ts) (same_texts old.ipv4 (strings_of xs)) (λ j h. h)
      (tell_master-Grows id (strings_of xs) port ts)
tell_if_moved-Grows (some other) old id port ts = λ j h. h
tell_if_moved-Grows none old id port ts = λ j h. h

has_team-append : (ts us : List TeamToken) → Grows ts (ts ++ us)
unfolding has_team
has_team-append [] us j h = cc
has_team-append (t ∷ ts) us j h = ground (arith, h, has_team-append ts us j)

-- What holds after a broadcast or a join: it holds before, and of the changes that they make to the
-- masters and to the peers.
module _ (from_string : String → Option ℕ) (to_text : ℕ → String) (memory : ℤ)
    (P : DiscoveryManager → Type 0) (d : DiscoveryManager) (same : P d)
    (masters : (ts : List TeamToken) (ms : Map String Master)
      → Grows d.team_tokens ts
      → P (record d { team_tokens = ts; team_master = ms }))
    (known : (id : String) (p : Peer)
      → has_team p.team_id d.team_tokens ≡ true
      → P (record d { peers = insert id p d.peers })) where
  put_master-Holds :
      (o : Option Master) (id team_name : String) (team_id : ℕ) (fs : Fields)
      → Holds P (put_master from_string to_text memory o id team_name team_id fs d)
  put_master-Holds none id team_name team_id fs = masters _ _ (
      tell_if_array-Grows (get_field "ipv4" fs) (new_master memory team_name team_id fs)
        d.team_tokens)
  put_master-Holds (some old) id team_name team_id fs =
      Holds-bind P (const_field "name" (object fs)) _ (λ n _.
        Holds-bind P (get_string n) _ (λ name _.
          Holds-bind P (const_field "port" (object fs)) _ (λ p _.
            Holds-bind P (get_int p) _ (λ port _.
              masters _ _
                (tell_if_moved-Grows (get_field "ipv4" fs) old team_id port d.team_tokens)))))

  hear_master_team-Holds :
      (id : String) (o : Option ℕ) (team_name : String) (fs : Fields)
      → Holds P (hear_master_team from_string to_text memory id o team_name fs d)
  hear_master_team-Holds id none team_name fs = same
  hear_master_team-Holds id (some team_id) team_name fs =
      put_master-Holds (find id d.team_master) id team_name team_id fs

  hear_master-Holds :
      (id : String) (team name : Option Json) (fs : Fields)
      → Holds P (hear_master from_string to_text memory id team name fs d)
  hear_master-Holds id (some team) (some name) fs = Holds-bind P (get_string team) _ (λ t _.
      Holds-bind P (get_string name) _ (λ n _. hear_master_team-Holds id (from_string t) n fs))
  hear_master-Holds id (some team) none fs = same
  hear_master-Holds id none name fs = same

  team_id-peer_row :
      (o : Option Peer) (team_id : ℕ) (fs : Fields)
      → has_team (peer_row from_string to_text memory o team_id fs).team_id d.team_tokens
        ≡ has_team team_id d.team_tokens
  unfolding new_peer changed_peer
  team_id-peer_row none team_id fs = refl
  team_id-peer_row (some old) team_id fs = refl

  put_peer-Holds :
      (id : String) (o : Option ℕ) (fs : Fields) → P (put_peer from_string to_text memory id o fs d)
  put_peer-Holds id none fs = same
  put_peer-Holds id (some team_id) fs = elim (Bool-cases (has_team team_id d.team_tokens)) [
    | inl e ↦ rw e (known id _ (team_id-peer_row (find id d.peers) team_id fs ∙ e))
    | inr e ↦ rw e same
  ]

  pub hear_peer-Holds :
      (id : String) (o : Option Json) (fs : Fields)
      → P (hear_peer from_string to_text memory id o fs d)
  hear_peer-Holds id (some (string team)) fs = put_peer-Holds id (from_string team) fs
  hear_peer-Holds id (some other) fs = same
  hear_peer-Holds id none fs = same

  hear_from-Holds :
      (id : String) (o : Option Json) (fs : Fields)
      → Holds P (hear_from from_string to_text memory id o fs d)
  hear_from-Holds id (some (array xs)) fs =
      hear_master-Holds id (find_in "teamID" (first xs)) (find_in "teamName" (first xs)) fs
  hear_from-Holds id (some other) fs = hear_peer-Holds id (get_field "teamID" fs) fs
  hear_from-Holds id none fs = hear_peer-Holds id (get_field "teamID" fs) fs

  hear-Holds : (id : String) (fs : Fields) → Holds P (hear from_string to_text memory id fs d)
  unfolding hear
  hear-Holds id fs =
      by_cases (Holds P) (str_eq id (to_text d.framework_id)) same
        (hear_from-Holds id (get_field "master" fs) fs)

  hear_id-Holds :
      (o : Option Json) (fs : Fields) → Holds P (hear_id from_string to_text memory o fs d)
  hear_id-Holds none fs = same
  hear_id-Holds (some j) fs = Holds-bind P (get_string j) _ (λ id _. hear-Holds id fs)

  pub parse_ipv4_broadcast-Holds :
      (packet : Option Json) → Holds P (parse_ipv4_broadcast from_string to_text memory packet d)
  unfolding parse_ipv4_broadcast
  parse_ipv4_broadcast-Holds (some (object fs)) = hear_id-Holds (get_field "id" fs) fs
  parse_ipv4_broadcast-Holds (some other) = same
  parse_ipv4_broadcast-Holds none = same

  join_master-Holds : (id : ℕ) (jwt : String) (o : Option Master) → P (join_master id jwt o d).1
  join_master-Holds id jwt none = same
  join_master-Holds id jwt (some m) =
      masters _ d.team_master (has_team-append d.team_tokens (token_of m id jwt ∷ []))

  pub join_team-Holds : (id : ℕ) (jwt : String) → P (join_team id jwt d).1
  unfolding join_team
  join_team-Holds id jwt =
      by_cases (λ (x : Option Bool × DiscoveryManager). P x.1) (has_team id d.team_tokens) same
        (join_master-Holds id jwt (master_of id d.team_master))
