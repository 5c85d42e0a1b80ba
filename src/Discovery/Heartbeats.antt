-- ===== src/Discovery/Heartbeats.antt =====
-- The heartbeats of the members of a master's team, and their end: the route /api/team-heartbeat and
-- start_cleanup_inactive_member of src/discoverymgr/discovery_mgr.cpp.
use text.Mathlib.Text.{◌==◌ as str_eq}
use ability_framework.Prelude.{
  ℕ, ◌+◌, String, Bool, false, not, ◌&&◌, Option, none, some, [], ◌∷◌, if◌then◌else◌, ltb, Map,
  find, insert, name_key,
}
use ability_framework.Prelude.Int.{ℤ}
use ability_framework.Json.{
  Json, string, array, object, Fields, get_field, invalid_argument, Try, returned, failed, ◌>>=◌,
  get_string, const_field, first,
}
use ability_framework.Discovery.Teams.{Member, DiscoveryManager}
use ability_framework.Discovery.Jwt.{
  Claims, is_valid_jwt_token, is_expired_jwt_token, check_token_expiration,
}
use ability_framework.Discovery.Rows.{new_member, changed_member}

-- A document that is this text.
abbrev pub is_text : Json → String → Bool
is_text (string s) t = str_eq s t
is_text _ t = false

-- How a uuid is read and written, the bits of a fresh int, and the JWT library.
module _ (from_string : String → Option ℕ) (to_text : ℕ → String) (memory : ℤ)
    (decode : String → Option Claims) (verify : ℕ → String → String → Bool) where
  abbrev pub put_member :
      ℕ → String → Fields → Option Member → DiscoveryManager → Try DiscoveryManager
  put_member now id fs none d =
      new_member from_string memory (check_token_expiration decode now) now fs >>= λ m.
      returned (record d { team_member = insert id m d.team_member })
  put_member now id fs (some old) d =
      changed_member from_string memory (check_token_expiration decode now) now fs old >>= λ m.
      returned (record d { team_member = insert id m d.team_member })

  -- The token has to be signed with the secret of our team, and not expired.
  unfoldable pub accept_member :
      ℕ → String → Fields → String → DiscoveryManager → Try DiscoveryManager
  accept_member now id fs jwt d =
      if is_valid_jwt_token decode verify now jwt d.master_token.secret
        && not (is_expired_jwt_token decode now jwt)
      then put_member now id fs (find id d.team_member) d
      else failed invalid_argument

  abbrev pub take_token : ℕ → String → Fields → Json → DiscoveryManager → Try DiscoveryManager
  take_token now id fs team d =
      (const_field "jwt" team >>= λ j. get_string j) >>= λ jwt. accept_member now id fs jwt d

  abbrev pub check_team :
      ℕ → String → Fields → Json → DiscoveryManager → Json → Try DiscoveryManager
  check_team now id fs team d team_id =
      if is_text team_id (to_text d.master_token.team_id)
      then take_token now id fs team d
      else failed invalid_argument

  unfoldable pub read_team : ℕ → String → Fields → Json → DiscoveryManager → Try DiscoveryManager
  read_team now id fs team d =
      const_field "teamID" team >>= λ team_id. check_team now id fs team d team_id

  abbrev pub read_heartbeat :
      ℕ → Option Json → Option Json → Fields → DiscoveryManager → Try DiscoveryManager
  read_heartbeat now (some (string id)) (some (array team)) fs d =
      read_team now id fs (first team) d
  read_heartbeat now _ _ fs d = failed invalid_argument

  -- POST /api/team-heartbeat, from its body; `none` is a body that is no JSON.
  unfoldable pub on_team_heartbeat : ℕ → Option Json → DiscoveryManager → Try DiscoveryManager
  on_team_heartbeat now (some (object fs)) d =
      read_heartbeat now (get_field "id" fs) (get_field "team" fs) fs d
  on_team_heartbeat now _ d = failed invalid_argument

-- start_cleanup_inactive_member: one round of its timer.
abbrev pub is_inactive : ℕ → ℕ → Member → Bool
is_inactive timeout now m = ltb (m.last_updated + timeout) now

unfoldable pub drop_inactive : ℕ → ℕ → Map String Member → Map String Member
drop_inactive timeout now [] = []
drop_inactive timeout now ((id, m) ∷ ms) =
    let rest = drop_inactive timeout now ms in
    if is_inactive timeout now m then rest else (id, m) ∷ rest

unfoldable pub cleanup_members : ℕ → ℕ → DiscoveryManager → DiscoveryManager
cleanup_members timeout now d = record d { team_member = drop_inactive timeout now d.team_member }
