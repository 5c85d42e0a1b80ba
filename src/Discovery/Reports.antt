-- ===== src/Discovery/Reports.antt =====
-- The heartbeat of a member at the master of its team: src/discoverymgr/discovery_mgr.cpp.
use text.Mathlib.Text.{◌==◌ as str_eq}
use text.Mathlib.TextEquality.{eq_iff}
use ability_framework.Prelude.{
  ℕ, String, Bool, true, false, Option, none, some, ◌≡◌, refl, find, insert, name_key, find-insert,
  same_refl,
}
use ability_framework.Prelude.Int.{ℤ}
use ability_framework.Json.{
  string, array, object, no_items, item, no_fields, field, get_field, Try, returned, ◌>>=◌,
  to_int32,
}
use ability_framework.Discovery.Teams.{Member, TeamToken, DiscoveryManager}
use ability_framework.Discovery.Jwt.{
  Claims, is_valid_jwt_token, is_expired_jwt_token, check_token_expiration,
}
use ability_framework.Discovery.Rows.{strings_of, new_member, changed_member, jwt_of, master_teams}
use ability_framework.Discovery.Heartbeats.{put_member, accept_member, read_team, on_team_heartbeat}
use ability_framework.Discovery.Packets.{Itself, texts_of, named_team, heartbeat_packet}
use ability_framework.Discovery.Meetings.{strings_of-texts_of}

-- What a row says of a framework at a time, with a token.
abbrev pub Reports : Itself → String → ℕ → Member → Type 0
Reports f jwt now m =
    (m.name ≡ f.name)
    × (m.port ≡ to_int32 f.http_port)
    × (m.jwt ≡ jwt)
    × (m.last_updated ≡ now)
    × (m.ipv4 ≡ f.ipv4_addresses)
    × (m.ipv6 ≡ f.ipv6_addresses)

str_eq_refl : (s : String) → str_eq s s ≡ true
str_eq_refl s = (eq_iff s s).1 refl

module _ (from_string : String → Option ℕ) (to_text : ℕ → String) (memory : ℤ)
    (decode : String → Option Claims) (verify : ℕ → String → String → Bool)
    (read_back : (id : ℕ) → from_string (to_text id) ≡ some id) where
  new_member-Reports :
      (f : Itself) (own : Option TeamToken) (team : TeamToken) (now : ℕ)
      → (m : Member) × (new_member from_string memory
            (check_token_expiration decode now)
            now
            (heartbeat_packet to_text f own team)
          ≡ returned m)
        × Reports f team.jwt now m
  unfolding new_member heartbeat_packet get_field jwt_of master_teams
  new_member-Reports f none team now = (
    _,
    refl,
    (
      refl,
      refl,
      refl,
      refl,
      strings_of-texts_of f.ipv4_addresses,
      strings_of-texts_of f.ipv6_addresses,
    ),
  )
  new_member-Reports f (some o) team now = (
    record {
      name = f.name;
      port = to_int32 f.http_port;
      jwt = team.jwt;
      expiry = check_token_expiration decode now team.jwt;
      last_updated = now;
      ipv4 = strings_of (texts_of f.ipv4_addresses);
      ipv6 = strings_of (texts_of f.ipv6_addresses);
      master_team_name = o.team_name;
      master_team_id = o.team_id;
    },
    rw (read_back o.team_id) refl,
    (
      refl,
      refl,
      refl,
      refl,
      strings_of-texts_of f.ipv4_addresses,
      strings_of-texts_of f.ipv6_addresses,
    ),
  )

  changed_member-Reports :
      (f : Itself) (own : Option TeamToken) (team : TeamToken) (now : ℕ) (old : Member)
      → (m : Member) × (changed_member from_string memory
            (check_token_expiration decode now)
            now
            (heartbeat_packet to_text f own team)
            old
          ≡ returned m)
        × Reports f team.jwt now m
  unfolding changed_member heartbeat_packet get_field jwt_of
  changed_member-Reports f own team now old = (
    _,
    refl,
    (
      refl,
      refl,
      refl,
      refl,
      strings_of-texts_of f.ipv4_addresses,
      strings_of-texts_of f.ipv6_addresses,
    ),
  )

  -- A row that is put under a framework's id is found there.
  put_row :
      (f : Itself) (jwt : String) (now : ℕ) (id : String) (made : Try Member) (d : DiscoveryManager)
      → (m : Member) × (made ≡ returned m) × Reports f jwt now m
      → (d' : DiscoveryManager) × (m : Member) × ((made >>= λ m.
            returned (record d { team_member = insert id m d.team_member }))
          ≡ returned d')
        × (find id d'.team_member ≡ some m)
        × Reports f jwt now m
  put_row f jwt now id made d (m, e, r) = (
    record d { team_member = insert id m d.team_member },
    m,
    rw e refl,
    rw (find-insert id id m d.team_member, same_refl id) refl,
    r,
  )

  put_member-heartbeat_packet :
      (f : Itself) (own : Option TeamToken) (team : TeamToken) (now : ℕ) (id : String)
      (old : Option Member) (d : DiscoveryManager)
      → (d' : DiscoveryManager) × (m : Member) × (put_member from_string to_text memory decode
            verify now id
            (heartbeat_packet to_text f own team)
            old
            d
          ≡ returned d')
        × (find id d'.team_member ≡ some m)
        × Reports f team.jwt now m
  put_member-heartbeat_packet f own team now id none d =
      put_row f team.jwt now id _ d (new_member-Reports f own team now)
  put_member-heartbeat_packet f own team now id (some old) d =
      put_row f team.jwt now id _ d (changed_member-Reports f own team now old)

  get_field-heartbeat_packet :
      (f : Itself) (own : Option TeamToken) (team : TeamToken)
      → (get_field "id" (heartbeat_packet to_text f own team)
          ≡ some (string (to_text f.framework_id)))
        × (get_field "team" (heartbeat_packet to_text f own team)
            ≡ some (
                array (
                  item
                    (named_team to_text team (field "jwt" (string team.jwt) no_fields))
                    no_items)))
  unfolding heartbeat_packet get_field
  get_field-heartbeat_packet f own team = (refl, refl)

  -- A heartbeat for the team of a master, with a token that the master's secret verifies and that has
  -- not expired, is taken: under the member's id stands then, whether it was known before or not, a row
  -- with the name, the port, the addresses and the token that were sent, and the time of receipt. It is
  -- assumed that a uuid is read back from its text.
  pub on_team_heartbeat-heartbeat_packet :
      (f : Itself) (own : Option TeamToken) (team : TeamToken) (now : ℕ) (d : DiscoveryManager)
      → team.team_id ≡ d.master_token.team_id
      → is_valid_jwt_token decode verify now team.jwt d.master_token.secret ≡ true
      → is_expired_jwt_token decode now team.jwt ≡ false
      → (d' : DiscoveryManager) × (m : Member) × (on_team_heartbeat from_string to_text memory
            decode verify now
            (some (object (heartbeat_packet to_text f own team)))
            d
          ≡ returned d')
        × (find (to_text f.framework_id) d'.team_member ≡ some m)
        × Reports f team.jwt now m
  unfolding on_team_heartbeat read_team accept_member get_field
  on_team_heartbeat-heartbeat_packet f own team now d same valid fresh =
      let (d', m, e, at, r) =
        put_member-heartbeat_packet f own team now (to_text f.framework_id)
          (find (to_text f.framework_id) d.team_member) d in
      let (i, t) = get_field-heartbeat_packet f own team in
      let ours : str_eq (to_text team.team_id) (to_text d.master_token.team_id) ≡ true =
        rw same (str_eq_refl (to_text d.master_token.team_id)) in
      (d', m, rw (i, t, ours, valid, fresh) e, at, r)
