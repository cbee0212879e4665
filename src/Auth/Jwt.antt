-- ===== src/Auth/Jwt.antt =====
-- src/auth/jwt/jwt.service.ts
use proyecto_verde_auth.Base.{ℕ, Option, none, some, Text, codes, or_else}
use proyecto_verde_auth.Platform.{Platform, Payload, access, refresh}

abbrev pub access_payload : Text → Text → Payload
access_payload user email = record { sub = user; email = some email; jti = none; type = access }

abbrev pub refresh_payload : Text → Text → Payload
refresh_payload user jti = record { sub = user; email = none; jti = some jti; type = refresh }

-- What `generateTokens` returns.
pub record Tokens : Type 0 where
  pub access_token : Text
  pub refresh_token : Text
  pub expires_in : ℕ

module _ (p : Platform) where
  unfoldable pub generate_access_token : ℕ → Text → Text → Text
  generate_access_token now user email =
      p.jwt.sign p.config.jwt_access_secret (or_else p.config.jwt_access_expires (codes "15m")) now
        (access_payload user email)

  -- `jti` is drawn at random.
  unfoldable pub generate_refresh_token : Text → ℕ → Text → Text
  generate_refresh_token jti now user =
      p.jwt.sign p.config.jwt_refresh_secret (or_else p.config.jwt_refresh_expires (codes "7d")) now
        (refresh_payload user jti)

  unfoldable pub verify_access_token : ℕ → Text → Option Payload
  verify_access_token now token = p.jwt.verify p.config.jwt_access_secret now token

  unfoldable pub verify_refresh_token : ℕ → Text → Option Payload
  verify_refresh_token now token = p.jwt.verify p.config.jwt_refresh_secret now token

  -- The source's `device` and `ip` are not used.
  unfoldable pub generate_tokens : Text → ℕ → Text → Text → Tokens
  unfolding generate_access_token generate_refresh_token
  generate_tokens jti now user email = record {
    access_token = generate_access_token now user email;
    refresh_token = generate_refresh_token jti now user;
    expires_in = 900;
  }
