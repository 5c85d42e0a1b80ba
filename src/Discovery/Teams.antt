-- ===== src/Discovery/Teams.antt =====
-- What a framework knows of teams: include/discoverymgr/multi_map.hpp and
-- include/discoverymgr/discovery_mgr.hpp, with join_team and the route /api/team/leave.
use ability_framework.Prelude.{
  ℕ, String, Bool, true, false, Option, none, some, List, [], ◌∷◌, ◌++◌, ◌==◌, ◌||◌, if◌then◌else◌,
  Map,
}
use ability_framework.Prelude.Int.{ℤ}

pub record Master : Type 0 where
  pub name : String
  pub port : ℤ
  pub team_name : String
  pub team_id : ℕ
  pub ipv4 : List String
  pub ipv6 : List String

pub record Member : Type 0 where
  pub name : String
  pub port : ℤ
  pub jwt : String
  pub expiry : ℤ
  pub last_updated : ℕ
  pub ipv4 : List String
  pub ipv6 : List String
  pub master_team_name : String
  pub master_team_id : ℕ

-- Its time of update is never written.
pub record Peer : Type 0 where
  pub name : String
  pub port : ℤ
  pub ipv4 : List String
  pub ipv6 : List String
  pub team_name : String
  pub team_id : ℕ

pub record TeamToken : Type 0 where
  pub team_name : String
  pub team_id : ℕ
  pub secret : String
  pub jwt : String
  pub master_port : ℤ
  pub master_ip : List String

pub record DiscoveryManager : Type 0 where
  pub framework_id : ℕ
  pub master_token : TeamToken
  pub team_tokens : List TeamToken
  pub team_master : Map String Master
  pub team_member : Map String Member
  pub peers : Map String Peer

unfoldable pub has_team : ℕ → List TeamToken → Bool
has_team id [] = false
has_team id (t ∷ ts) = t.team_id == id || has_team id ts

-- The first master of the team, in the order of the map.
unfoldable pub master_of : ℕ → Map String Master → Option Master
master_of id [] = none
master_of id ((k, m) ∷ ms) = let rest = master_of id ms in if m.team_id == id then some m else rest

abbrev pub token_of : Master → ℕ → String → TeamToken
token_of m id jwt = record {
  team_name = m.team_name;
  team_id = id;
  secret = "";
  jwt = jwt;
  master_port = m.port;
  master_ip = m.ipv4;
}

-- expected<bool, ErrorMsg>, `none` the error.
abbrev pub join_master :
    ℕ → String → Option Master → DiscoveryManager → Option Bool × DiscoveryManager
join_master id jwt none d = (none, d)
join_master id jwt (some m) d =
    (some true, record d { team_tokens = d.team_tokens ++ token_of m id jwt ∷ [] })

unfoldable pub join_team : ℕ → String → DiscoveryManager → Option Bool × DiscoveryManager
join_team id jwt d =
    if has_team id d.team_tokens
    then (some true, d)
    else join_master id jwt (master_of id d.team_master) d

unfoldable pub without_team : ℕ → List TeamToken → List TeamToken
without_team id [] = []
without_team id (t ∷ ts) =
    let rest = without_team id ts in if t.team_id == id then rest else t ∷ rest

-- POST /api/team/leave, once the uuid is read; `none` is std::invalid_argument.
unfoldable pub leave_team : ℕ → DiscoveryManager → Option DiscoveryManager
leave_team id d =
    if has_team id d.team_tokens
    then some (record d { team_tokens = without_team id d.team_tokens })
    else none

-- The tokens of a team, told where its master is.
unfoldable pub tell_master : ℕ → List String → ℤ → List TeamToken → List TeamToken
tell_master id ip port [] = []
tell_master id ip port (t ∷ ts) =
    let rest = tell_master id ip port ts in
    if t.team_id == id then record t { master_ip = ip; master_port = port } ∷ rest else t ∷ rest

-- try_send_team_heartbeat, with the answer of the framework at an address and a port: whether it is
-- the status 200.
module _ (posted : String → ℤ → Bool) where
  unfoldable pub send_to_any : List String → ℤ → Bool
  send_to_any [] port = false
  send_to_any (addr ∷ addrs) port = posted addr port || send_to_any addrs port

  unfoldable pub try_send_team_heartbeat : TeamToken → Bool
  try_send_team_heartbeat t = send_to_any t.master_ip t.master_port
