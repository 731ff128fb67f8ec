-- ===== src/Auth/Engine.antt =====
-- What the authentication calls that the repository does not hold, and its configuration.
use uml_class_designer_be.Common.{ℕ, String, Bool, Option}

-- auth.types.ts
pub record AccessTokenClaims : Type 0 where
  pub sub : String
  pub sid : String
  pub typ : String
  pub exp : ℕ

pub record AuthEngine : Type 0 where
  -- class-validator's `isUUID(x, '4')`
  pub is_uuid : String → Bool
  -- the SHA-256 of a text, in hexadecimal
  pub hash : String → String
  -- the HMAC of a session and a sequence number under the secret, in base64url
  pub sign : String → String
  -- `verifyPassword` of argon2: a hash and a password
  pub verify_password : String → String → Bool
  -- `jwtService.signAsync` and `verifyAsync`, with the secret, issuer, audience and lifetime of the
  -- configuration; the latter at a time, none where it throws
  pub sign_jwt : String → String → ℕ → String
  pub verify_jwt : ℕ → String → Option AccessTokenClaims
  -- `trim()` and `toLowerCase()` of the platform
  pub trim : String → String
  pub lower_case : String → String
  -- the lifetimes of the configuration
  pub access_token_ttl_seconds : ℕ
  pub refresh_token_ttl_seconds : ℕ
