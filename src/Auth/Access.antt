-- ===== src/Auth/Access.antt =====
-- `login` and `logout` in src/auth/auth.service.ts.
use backend_assessment_chall.Prelude.{arith, none, refl, some, suc, true, ℕ, ◌≡◌, ◌≢◌}
use backend_assessment_chall.Auth.{
  issue_token_pair, login, logout, refresh_key, register, user_by_email, verify_refresh_token,
}
use backend_assessment_chall.Auth.Registration.{register-registers, with_user}
use backend_assessment_chall.Auth.Reuse.{without, without-gone, without-other}
use backend_assessment_chall.Auth.Rotation.{Issued, issue_token_pair-Issued}
use backend_assessment_chall.Auth.Sessions.{session}
use backend_assessment_chall.Auth.Ttl.{ttl_to_seconds}
use backend_assessment_chall.Auth.Types.{
  AuthTokensDto, Crypto, JwtConfig, RefreshTokenPayload, RegisterDto,
}
use backend_assessment_chall.Prelude.Table.{find_by}
use backend_assessment_chall.Prelude.Text.{Text}
use backend_assessment_chall.Redis.{redis_del, stored_by_key}
use backend_assessment_chall.Schema.{Role}
use backend_assessment_chall.World.{World, ok}
use backend_assessment_chall.World.Ensures.{Outcome}

module _ (crypto : Crypto) (config : JwtConfig) where
  open crypto use {compare_hash, compare_hash-hash, verify-sign}

  login_registered :
      (dto : RegisterDto) (w w' : World)
      → w'.db ≡ with_user crypto config dto w
      → login crypto config (record { email = dto.email; password = dto.password }) w'
        ≡ issue_token_pair crypto config (w.uuids w.drawn) Role.customer w'
  unfolding login user_by_email find_by
  login_registered dto w w' db = ground (arith, compare_hash-hash w dto.password)

  -- Whoever has registered can log in with the same email and password: the login never throws, and
  -- issues tokens and opens a session for the new user as a CUSTOMER. It is supposed that the
  -- lifetime of a session can be read and is not 0.
  pub login-register :
      (dto : RegisterDto) (w w' : World) (r : AuthTokensDto) (seconds : ℕ)
      → ttl_to_seconds config.refresh_ttl ≡ some (suc seconds)
      → register crypto config dto w ≡ (ok r, w')
      → Outcome
          (λ e v. ⊥)
          (Issued crypto config (w.uuids w.drawn) Role.customer (suc seconds) w')
          (login crypto config (record { email = dto.email; password = dto.password }) w')
  login-register dto w w' r seconds ttl done =
      let (new, reply, db, live) =
        rw done at (register-registers crypto config dto w seconds ttl) in
      rw (login_registered dto w w' db)
        (issue_token_pair-Issued crypto config (w.uuids w.drawn) Role.customer seconds w' ttl)

  logout_valid :
      (token : Text) (p : RefreshTokenPayload) (w : World)
      → crypto.verify_refresh config.refresh_secret true w.clock token ≡ some p
      → logout crypto config token w ≡ (ok tt, without p w)
  unfolding logout verify_refresh_token redis_del
  logout_valid token p w valid = ground arith

  -- A user who logs out ends the session of the refresh token given, even if the token has expired,
  -- and no other: every other key of Redis, and the data base, are as before.
  pub logout-ends :
      (user_id jti : Text) (now : ℕ) (w : World)
      → let token =
          crypto.sign_refresh config.refresh_secret config.refresh_ttl now
            (record { sub = user_id; jti = jti }) in
        let (r, w') = logout crypto config token w in
        (r ≡ ok tt)
        × (session user_id jti w' ≡ none)
        × ((k : Text)
            → k ≢ refresh_key user_id jti
            → stored_by_key k w'.redis ≡ stored_by_key k w.redis)
        × (w'.db ≡ w.db)
  unfolding redis_del
  logout-ends user_id jti now w =
      let p : RefreshTokenPayload = record { sub = user_id; jti = jti } in
      let token : Text = crypto.sign_refresh config.refresh_secret config.refresh_ttl now p in
      rw
        (logout_valid token p w
          (verify-sign config.refresh_secret config.refresh_ttl now w.clock p))
        (refl, rw (without-gone p w) refl, (λ k ne. without-other p k w ne), refl)
