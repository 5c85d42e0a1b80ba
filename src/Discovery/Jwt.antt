-- ===== src/Discovery/Jwt.antt =====
-- The tokens of teams: src/discoverymgr/jwt.cpp.
use text.Mathlib.Text.{◌==◌ as str_eq}
use ability_framework.Prelude.{
  ℕ, ◌-◌, String, Bool, false, ◌&&◌, Option, none, some, if◌then◌else◌, ltb, is_some,
}
use ability_framework.Prelude.Int.{ℤ, pos, negsuc}
use ability_framework.Json.{to_int32}

-- What the library decodes of a token: the end of its time in seconds, if it has one, and the claim
-- "Permanent", `some none` when that is no text.
pub record Claims : Type 0 where
  pub expires_at : Option ℕ
  pub permanent : Option (Option String)

-- The library: how it decodes a token, and whether at a time it verifies one with a secret, its times
-- included (`none` and `false` where it throws).
module _ (decode : String → Option Claims) (verify : ℕ → String → String → Bool) where
  unfoldable pub is_valid_jwt_token : ℕ → String → String → Bool
  is_valid_jwt_token now token secret = is_some (decode token) && verify now token secret

module _ (decode : String → Option Claims) (now : ℕ) where
  abbrev pub is_past : Option ℕ → Bool
  is_past none = false
  is_past (some t) = ltb t now

  -- A token that cannot be decoded, or has no end, is not expired.
  unfoldable pub is_expired_jwt_token : String → Bool
  is_expired_jwt_token token = elim (decode token) [
    | none ↦ false
    | some claims ↦ is_past claims.expires_at
  ]

  abbrev pub remaining : Option ℕ → ℤ
  remaining none = pos 0
  remaining (some t) = to_int32 (pos (t - now))

  abbrev pub expiry_of : Claims → Option (Option String) → ℤ
  expiry_of claims none = remaining claims.expires_at
  expiry_of claims (some none) = pos 0
  expiry_of claims (some (some s)) =
      if str_eq s "true" then negsuc 0 else remaining claims.expires_at

  -- -1 for a permanent token, and 0 for one that is expired or cannot be read.
  unfoldable pub check_token_expiration : String → ℤ
  check_token_expiration token = elim (decode token) [
    | none ↦ pos 0
    | some claims ↦ expiry_of claims claims.permanent
  ]
