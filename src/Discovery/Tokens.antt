-- ===== src/Discovery/Tokens.antt =====
-- The tokens that members show in heartbeats: src/discoverymgr/discovery_mgr.cpp.
use ability_framework.Prelude.{
  false, ltb, ◌≤◌, ◌&&◌, is_some, ℕ, String, Bool, true, not, Option, none, some, ◌≡◌, refl, ◌∙◌,
  arith, find, insert, name_key, All, insert-All, by_cases, Bool-cases, inl, inr,
}
use ability_framework.Prelude.Int.{ℤ}
use ability_framework.Json.{
  Json, string, array, object, Fields, get_field, returned, ◌>>=◌, get_string, const_field, first,
}
use ability_framework.Discovery.Jwt.{
  Claims, is_valid_jwt_token, is_expired_jwt_token, check_token_expiration, is_past,
}
use ability_framework.Discovery.Teams.{Member, DiscoveryManager}
use ability_framework.Discovery.Rows.{jwt_of, new_member, changed_member}
use ability_framework.Discovery.Heartbeats.{
  put_member, accept_member, check_team, read_team, read_heartbeat, on_team_heartbeat, is_text,
}
use ability_framework.Discovery.Events.{Holds, Holds-bind}

module _ (from_string : String → Option ℕ) (to_text : ℕ → String) (memory : ℤ)
    (decode : String → Option Claims) (verify : ℕ → String → String → Bool) where
  -- A token that the library can decode and verifies with a secret at a time, at which it has not
  -- ended.
  abbrev pub IsShown : ℕ → String → String → Type 0
  IsShown at secret jwt =
      (verify at jwt secret ≡ true)
      × (claims : Claims) × (decode jwt ≡ some claims)
      × ((end : ℕ) → claims.expires_at ≡ some end → at ≤ end)

  -- Each member's token was good at the time of its last heartbeat, with the secret of our team.
  abbrev pub IsAuthentic : DiscoveryManager → Type 0
  IsAuthentic d = All (λ e. IsShown e.1.last_updated d.master_token.secret e.1.jwt) d.team_member

  by_claims :
      (now : ℕ) (secret jwt : String) (o : Option Claims)
      → decode jwt ≡ o
      → (is_some o && verify now jwt secret) ≡ true
      → not (elim o [ none ↦ false | some claims ↦ is_past decode now claims.expires_at ]) ≡ true
      → IsShown now secret jwt
  by_claims now secret jwt none e v x = cc
  by_claims now secret jwt (some claims) e v x = (v, claims, e, λ end f. not_past end (rw f at x))
    where
      not_past : (end : ℕ) → not (ltb end now) ≡ true → now ≤ end
      not_past end h = ground (arith, h)

  accepted-IsShown :
      (now : ℕ) (secret jwt : String)
      → is_valid_jwt_token decode verify now jwt secret ≡ true
      → not (is_expired_jwt_token decode now jwt) ≡ true
      → IsShown now secret jwt
  unfolding is_valid_jwt_token is_expired_jwt_token
  accepted-IsShown now secret jwt v x = by_claims now secret jwt (decode jwt) refl v x

  -- What a row that is made from a heartbeat has of it.
  abbrev IsFrom : ℕ → String → Member → Type 0
  IsFrom now jwt m = (m.jwt ≡ jwt) × (m.last_updated ≡ now)

  new_member-IsFrom :
      (now : ℕ) (fs : Fields) (jwt : String) (m : Member)
      → jwt_of fs ≡ returned jwt
      → new_member from_string memory (check_token_expiration decode now) now fs ≡ returned m
      → IsFrom now jwt m
  unfolding new_member
  new_member-IsFrom now fs jwt m e h = ground (arith, e, h)

  changed_member-IsFrom :
      (now : ℕ) (fs : Fields) (jwt : String) (old m : Member)
      → jwt_of fs ≡ returned jwt
      → changed_member from_string memory (check_token_expiration decode now) now fs old
        ≡ returned m
      → IsFrom now jwt m
  unfolding changed_member
  changed_member-IsFrom now fs jwt old m e h = ground (arith, e, h)

  insert-IsAuthentic :
      (now : ℕ) (id : String) (m : Member) (jwt : String) (d : DiscoveryManager)
      → IsFrom now jwt m
      → IsShown now d.master_token.secret jwt
      → IsAuthentic d
      → IsAuthentic (record d { team_member = insert id m d.team_member })
  insert-IsAuthentic now id m jwt d (e, f) v h =
      insert-All (λ (x : Member). IsShown x.last_updated d.master_token.secret x.jwt) id m
        d.team_member (rw (e, f) v) h

  put_member-IsAuthentic :
      (now : ℕ) (id : String) (fs : Fields) (jwt : String) (o : Option Member)
      (d : DiscoveryManager)
      → jwt_of fs ≡ returned jwt
      → IsShown now d.master_token.secret jwt
      → IsAuthentic d
      → Holds IsAuthentic (put_member from_string to_text memory decode verify now id fs o d)
  put_member-IsAuthentic now id fs jwt none d e v h =
      Holds-bind IsAuthentic
        (new_member from_string memory (check_token_expiration decode now) now fs)
        (λ m. returned (record d { team_member = insert id m d.team_member }))
        (λ m r. insert-IsAuthentic now id m jwt d (new_member-IsFrom now fs jwt m e r) v h)
  put_member-IsAuthentic now id fs jwt (some old) d e v h =
      Holds-bind IsAuthentic
        (changed_member from_string memory (check_token_expiration decode now) now fs old)
        (λ m. returned (record d { team_member = insert id m d.team_member }))
        (λ m r. insert-IsAuthentic now id m jwt d (changed_member-IsFrom now fs jwt old m e r) v h)

  accept_member-IsAuthentic :
      (now : ℕ) (id : String) (fs : Fields) (jwt : String) (d : DiscoveryManager)
      → jwt_of fs ≡ returned jwt
      → IsAuthentic d
      → Holds IsAuthentic (accept_member from_string to_text memory decode verify now id fs jwt d)
  unfolding accept_member
  accept_member-IsAuthentic now id fs jwt d e h =
      elim (Bool-cases (is_valid_jwt_token decode verify now jwt d.master_token.secret)) [
        | inl v ↦ elim (Bool-cases (not (is_expired_jwt_token decode now jwt))) [
          | inl x ↦
              rw (v, x)
                (put_member-IsAuthentic now id fs jwt (find id d.team_member) d e
                  (accepted-IsShown now d.master_token.secret jwt v x) h)
          | inr x ↦ rw (v, x) tt
        ]
        | inr v ↦ rw v tt
      ]

  read_team-IsAuthentic :
      (now : ℕ) (id : String) (fs : Fields) (team : Json) (d : DiscoveryManager)
      → jwt_of fs ≡ (const_field "jwt" team >>= λ j. get_string j)
      → IsAuthentic d
      → Holds IsAuthentic (read_team from_string to_text memory decode verify now id fs team d)
  unfolding read_team
  read_team-IsAuthentic now id fs team d e h =
      Holds-bind IsAuthentic (const_field "teamID" team)
        (check_team from_string to_text memory decode verify now id fs team d)
        (λ j r.
          by_cases (Holds IsAuthentic) (is_text j (to_text d.master_token.team_id))
            (Holds-bind IsAuthentic (const_field "jwt" team >>= λ k. get_string k)
              (λ jwt. accept_member from_string to_text memory decode verify now id fs jwt d)
              (λ jwt v. accept_member-IsAuthentic now id fs jwt d (e ∙ v) h))
            tt)

  read_heartbeat-IsAuthentic :
      (now : ℕ) (id team : Option Json) (fs : Fields) (d : DiscoveryManager)
      → get_field "team" fs ≡ team
      → IsAuthentic d
      → Holds IsAuthentic (read_heartbeat from_string to_text memory decode verify now id team fs d)
  unfolding jwt_of
  read_heartbeat-IsAuthentic now (some (string id)) (some (array xs)) fs d e h =
      read_team-IsAuthentic now id fs (first xs) d (rw e refl) h
  read_heartbeat-IsAuthentic now (some (string id)) (some other) fs d e h = tt
  read_heartbeat-IsAuthentic now (some (string id)) none fs d e h = tt
  read_heartbeat-IsAuthentic now none team fs d e h = tt
  read_heartbeat-IsAuthentic now (some other) team fs d e h = tt

  pub on_team_heartbeat-IsAuthentic :
      (now : ℕ) (body : Option Json) (d : DiscoveryManager)
      → IsAuthentic d
      → Holds IsAuthentic (on_team_heartbeat from_string to_text memory decode verify now body d)
  unfolding on_team_heartbeat
  on_team_heartbeat-IsAuthentic now (some (object fs)) d h =
      read_heartbeat-IsAuthentic now (get_field "id" fs) (get_field "team" fs) fs d refl h
  on_team_heartbeat-IsAuthentic now (some other) d h = tt
  on_team_heartbeat-IsAuthentic now none d h = tt
