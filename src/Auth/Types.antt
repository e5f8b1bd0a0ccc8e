-- ===== src/Auth/Types.antt =====
-- What src/auth takes and returns (src/auth/dto, src/auth/interfaces), and the parts of bcrypt and
-- of @nestjs/jwt that it calls.
use backend_assessment_chall.Prelude.{Bool, Option, some, true, ℕ, ◌≡◌}
use backend_assessment_chall.Prelude.Text.{Text}
use backend_assessment_chall.Schema.{Role}
use backend_assessment_chall.World.{World}

pub record RegisterDto : Type 0 where
  pub email : Text
  pub password : Text

pub record LoginDto : Type 0 where
  pub email : Text
  pub password : Text

pub record AuthTokensDto : Type 0 where
  pub access_token : Text
  pub refresh_token : Text

-- Payload encoded inside an access token.
pub record AccessTokenPayload : Type 0 where
  pub sub : Text
  pub role : Role

-- Payload encoded inside a refresh token.
pub record RefreshTokenPayload : Type 0 where
  pub sub : Text
  pub jti : Text

-- What a verified access token holds: a claim may be missing.
pub record Claims : Type 0 where
  pub sub : Option Text
  pub role : Option Role

-- What is attached to `request.user`.
pub record CurrentUserPayload : Type 0 where
  pub user_id : Text
  pub role : Role

-- The entries `jwt.*` of the configuration.
pub record JwtConfig : Type 0 where
  pub access_secret : Text
  pub access_ttl : Text
  pub refresh_secret : Text
  pub refresh_ttl : Text

-- bcrypt and jsonwebtoken. A hash depends on the state that the salt is drawn from, a token on the
-- time; `verify_refresh` takes the secret, `ignoreExpiration`, and the time. Relied on: a password
-- matches its own hash, and a token verifies under the secret that signed it, its expiry aside.
pub record Crypto : Type 0 where
  pub hash : World → Text → Text
  pub compare_hash : Text → Text → Bool
  pub sign_access : Text → Text → ℕ → AccessTokenPayload → Text
  pub sign_refresh : Text → Text → ℕ → RefreshTokenPayload → Text
  pub verify_access : Text → ℕ → Text → Option Claims
  pub verify_refresh : Text → Bool → ℕ → Text → Option RefreshTokenPayload
  pub compare_hash-hash : (w : World) (p : Text) → compare_hash p (hash w p) ≡ true
  pub verify-sign :
      (secret ttl : Text) (now later : ℕ) (p : RefreshTokenPayload)
      → verify_refresh secret true later (sign_refresh secret ttl now p) ≡ some p
