-- ===== src/Discovery/Meetings.antt =====
-- How a master and a member of its team find one another: src/discoverymgr/discovery_mgr.cpp.
use text.Mathlib.Text.{◌==◌ as str_eq}
use ability_framework.Prelude.{
  ℕ, String, true, false, Option, none, some, List, [], ◌∷◌, ◌++◌, ◌≡◌, refl, ap, ◌∙◌, arith, Map,
  find, insert, name_key,
}
use ability_framework.Prelude.Int.{ℤ}
use ability_framework.Json.{
  string, array, object, no_items, item, no_fields, get_field, returned, to_int32,
}
use ability_framework.Discovery.Teams.{
  Master, TeamToken, DiscoveryManager, has_team, tell_master, master_of, token_of, join_team,
}
use ability_framework.Discovery.Rows.{strings_of, new_master, tell_if_array}
use ability_framework.Discovery.Broadcasts.{hear, parse_ipv4_broadcast}
use ability_framework.Discovery.Packets.{Itself, texts_of, named_team, master_packet}

pub strings_of-texts_of : (ss : List String) → strings_of (texts_of ss) ≡ ss
unfolding strings_of texts_of
strings_of-texts_of [] = refl
strings_of-texts_of (s ∷ ss) = ap (λ xs. s ∷ xs) (strings_of-texts_of ss)

tell_master_absent :
    (id : ℕ) (ip : List String) (port : ℤ) (ts : List TeamToken)
    → has_team id ts ≡ false
    → tell_master id ip port ts ≡ ts
unfolding tell_master has_team
tell_master_absent id ip port [] h = refl
tell_master_absent id ip port (t ∷ ts) h = ground (arith, h, tell_master_absent id ip port ts)

master_of-insert :
    (id : ℕ) (k : String) (m : Master) (ms : Map String Master)
    → m.team_id ≡ id
    → find k ms ≡ none
    → master_of id ms ≡ none
    → master_of id (insert k m ms) ≡ some m
unfolding master_of find insert
master_of-insert id k m [] e f h = ground (arith, e)
master_of-insert id k m ((j, n) ∷ ms) e f h = ground (arith, e, f, h, master_of-insert id k m ms e)

-- The row of a master, as it told of itself.
abbrev pub master_row : Itself → TeamToken → Master
master_row f team = record {
  name = f.name;
  port = to_int32 f.http_port;
  team_name = team.team_name;
  team_id = team.team_id;
  ipv4 = f.ipv4_addresses;
  ipv6 = f.ipv6_addresses;
}

module _ (from_string : String → Option ℕ) (to_text : ℕ → String) (memory : ℤ)
    (read_back : (id : ℕ) → from_string (to_text id) ≡ some id) where
  new_master-master_packet :
      (f : Itself) (team : TeamToken)
      → new_master memory team.team_name team.team_id (master_packet to_text f team)
        ≡ master_row f team
  unfolding new_master master_packet get_field
  new_master-master_packet f team =
      rw (strings_of-texts_of f.ipv4_addresses, strings_of-texts_of f.ipv6_addresses) refl

  get_field-master_packet :
      (f : Itself) (team : TeamToken)
      → (get_field "id" (master_packet to_text f team) ≡ some (string (to_text f.framework_id)))
        × (get_field "master" (master_packet to_text f team)
            ≡ some (array (item (named_team to_text team no_fields) no_items)))
        × (get_field "ipv4" (master_packet to_text f team)
            ≡ some (array (texts_of f.ipv4_addresses)))
  unfolding master_packet get_field
  get_field-master_packet f team = (refl, refl, refl)

  parse_ipv4_broadcast-master_packet :
      (f : Itself) (team : TeamToken) (d : DiscoveryManager)
      → str_eq (to_text f.framework_id) (to_text d.framework_id) ≡ false
      → find (to_text f.framework_id) d.team_master ≡ none
      → parse_ipv4_broadcast from_string to_text memory
          (some (object (master_packet to_text f team)))
          d
        ≡ returned (record d {
          team_tokens =
              tell_if_array
                (get_field "ipv4" (master_packet to_text f team))
                (master_row f team)
                d.team_tokens;
          team_master = insert (to_text f.framework_id) (master_row f team) d.team_master;
        })
  unfolding parse_ipv4_broadcast hear get_field
  parse_ipv4_broadcast-master_packet f team d own new =
      let (i, m, _) = get_field-master_packet f team in
      rw (i, own, m, read_back team.team_id, new, new_master-master_packet f team) refl

  -- A framework that has no token of a team, and rows neither of the team's master nor of any master of
  -- that team, hears the broadcast of the master, which is another framework, and then joins the team:
  -- the answer is true, and it has one token more, the last, with the given jwt and with the addresses
  -- and the port that the master sent. It is assumed that a uuid is read back from its text.
  pub join_team-master_packet :
      (f : Itself) (team : TeamToken) (jwt : String) (d : DiscoveryManager)
      → str_eq (to_text f.framework_id) (to_text d.framework_id) ≡ false
      → find (to_text f.framework_id) d.team_master ≡ none
      → master_of team.team_id d.team_master ≡ none
      → has_team team.team_id d.team_tokens ≡ false
      → (d' : DiscoveryManager) × (d'' : DiscoveryManager) × (parse_ipv4_broadcast from_string
            to_text memory
            (some (object (master_packet to_text f team)))
            d
          ≡ returned d')
        × (join_team team.team_id jwt d' ≡ (some true, d''))
        × (d''.team_tokens
            ≡ d.team_tokens
              ++ record {
                team_name = team.team_name;
                team_id = team.team_id;
                secret = "";
                jwt = jwt;
                master_port = to_int32 f.http_port;
                master_ip = f.ipv4_addresses;
              }
                ∷ [])
  unfolding join_team
  join_team-master_packet f team jwt d own new nobody none_of_it =
      let (_, _, a) = get_field-master_packet f team in
      let e =
        tell_master_absent team.team_id f.ipv4_addresses (to_int32 f.http_port) d.team_tokens
          none_of_it in
      let d' : DiscoveryManager = record d {
        team_master = insert (to_text f.framework_id) (master_row f team) d.team_master;
      } in
      let d'' : DiscoveryManager = record d' {
        team_tokens = d.team_tokens ++ token_of (master_row f team) team.team_id jwt ∷ [];
      } in
      (
        d',
        d'',
        parse_ipv4_broadcast-master_packet f team d own new ∙ rw (a, e) refl,
        rw
            (
              none_of_it,
              master_of-insert team.team_id (to_text f.framework_id) (master_row f team)
                  d.team_master refl new nobody,
            )
            refl,
        refl,
      )
