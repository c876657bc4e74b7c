-- ===== src/Security.antt =====
-- What the authentication takes from packages outside the repository (@nestjs/jwt, bcrypt, Node's
-- crypto and Buffer), as parameters with the laws that are relied on; and common/security.
pub mod Sample
use fruct.Prelude.{
  ℕ, String, Bool, true, false, ◌<◌, ◌*◌, Option, some, List, ◌≡◌, ◌==◌, length, if◌then◌else◌,
}
use fruct.Schema.{Role}

-- common/types/jwt-payload.type.ts
pub record AccessTokenPayload : Type 0 where
  pub sub : ℕ
  pub tenant_id : ℕ
  pub role : Role
  pub email : String

pub record RefreshTokenPayload : Type 0 where
  pub sub : ℕ
  pub jti : ℕ
  pub tenant_id : ℕ

pub record Security : Type 0 where
  -- @nestjs/jwt with the two secrets and lifetimes of the configuration, at a time in milliseconds.
  pub sign_access : ℕ → AccessTokenPayload → String
  pub sign_refresh : ℕ → RefreshTokenPayload → String
  pub verify_refresh : ℕ → String → Option RefreshTokenPayload
  -- The expiry that a signed token carries, in seconds.
  pub decode_exp : String → ℕ
  -- bcrypt
  pub bcrypt_hash : String → String
  pub bcrypt_compare : String → String → Bool
  -- crypto and Buffer
  pub sha256_hex : String → String
  pub from_hex : String → List ℕ
  pub timing_safe_equal : List ℕ → List ℕ → Bool
  -- A hash is accepted for the password that it was made of.
  pub bcrypt_compare-bcrypt_hash :
      (password : String) → bcrypt_compare password (bcrypt_hash password) ≡ true

module _ (sec : Security) where
  open sec use {sha256_hex, from_hex, timing_safe_equal, bcrypt_hash, bcrypt_compare}

  -- `hashToken`
  abbrev pub hash_token : String → String
  hash_token raw = sha256_hex raw

  abbrev pub token_hash_matches : String → String → Bool
  token_hash_matches raw stored_hash =
      let candidate = from_hex (hash_token raw) in
      let stored = from_hex stored_hash in
      if length candidate == length stored then timing_safe_equal candidate stored else false

  abbrev pub hash_password : String → String
  hash_password password = bcrypt_hash password

  abbrev pub verify_password : String → String → Bool
  verify_password password hash = bcrypt_compare password hash
