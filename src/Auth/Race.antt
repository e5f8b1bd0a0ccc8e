-- ===== src/Auth/Race.antt =====
-- `refresh` in src/auth/auth.service.ts, when two requests bring the same token at the same time:
-- it looks the session up and deletes it in two commands.
use backend_assessment_chall.Prelude.{arith, refl, some, suc, ℕ, ◌+◌, ◌∙◌, ◌≡◌, ◌≢◌}
use backend_assessment_chall.Auth.{refresh_key, rotate, user_by_id}
use backend_assessment_chall.Auth.Reuse.{user_by_id-id, without, without-other}
use backend_assessment_chall.Auth.Rotation.{
  issued, issued-Issued, issuing, pair_for, refresh_key-injective,
}
use backend_assessment_chall.Auth.Sessions.{session}
use backend_assessment_chall.Auth.Ttl.{ttl_to_seconds}
use backend_assessment_chall.Auth.Types.{Crypto, JwtConfig, RefreshTokenPayload}
use backend_assessment_chall.Prelude.Text.{Text, codes}
use backend_assessment_chall.Redis.{redis_del, redis_set}
use backend_assessment_chall.Schema.{User}
use backend_assessment_chall.World.{World, ok}

module _ (crypto : Crypto) (config : JwtConfig) (seconds : ℕ)
    (ttl : ttl_to_seconds config.refresh_ttl ≡ some (suc seconds)) (p : RefreshTokenPayload)
    (user : User) where
  -- The state that a rotation leaves.
  abbrev pub after_rotation : World → World
  after_rotation w = issued crypto config p.sub (suc seconds) (without p w)

  rotate_found :
      (w : World)
      → user_by_id p.sub w.db.users ≡ some user
      → rotate crypto config p w ≡ (ok (pair_for crypto config p.sub user.role w), after_rotation w)
  unfolding rotate redis_del
  rotate_found w found = ground (
    arith,
    user_by_id-id p.sub w.db.users user found,
    issuing crypto config p.sub user.role seconds (without p w) ttl,
  )

  new_session : (w : World) → session p.sub (w.uuids w.drawn) (after_rotation w) ≡ some (codes "1")
  unfolding redis_del redis_set
  new_session w =
      ground
        (arith, (issued-Issued crypto config p.sub user.role (suc seconds) (without p w)).stored)

  kept_session :
      (jti : Text) (w : World)
      → jti ≢ p.jti
      → jti ≢ w.uuids w.drawn
      → session p.sub jti (after_rotation w) ≡ session p.sub jti w
  unfolding redis_del redis_set
  kept_session jti w old new = ground (
    arith,
    (issued-Issued crypto config p.sub user.role (suc seconds) (without p w)).others
        (refresh_key p.sub jti),
    without-other p (refresh_key p.sub jti) w,
    refresh_key-injective p.sub jti p.jti,
    refresh_key-injective p.sub jti (w.uuids w.drawn),
  )

  -- Two requests with one refresh token that have both passed the check of its session are both
  -- answered with a new pair of tokens, and both of the new sessions live, though the token is used
  -- twice. It is supposed that its user exists, that the lifetime can be read and is not 0, and that
  -- the UUIDs drawn are neither the token's id nor the same.
  pub rotate-raced :
      (w : World)
      → user_by_id p.sub w.db.users ≡ some user
      → w.uuids w.drawn ≢ p.jti
      → w.uuids w.drawn ≢ w.uuids (w.drawn + 1)
      → let (r, v) = rotate crypto config p w in
        let (q, z) = rotate crypto config p v in
        (r ≡ ok (pair_for crypto config p.sub user.role w))
        × (q ≡ ok (pair_for crypto config p.sub user.role v))
        × (session p.sub (w.uuids w.drawn) z ≡ some (codes "1"))
        × (session p.sub (w.uuids (w.drawn + 1)) z ≡ some (codes "1"))
        × (z.db ≡ w.db)
  unfolding redis_del redis_set
  rotate-raced w found old apart =
      let v : World = after_rotation w in
      rw (rotate_found w found) (
        rw (rotate_found v found) (
          refl,
          refl,
          kept_session (w.uuids w.drawn) v old apart ∙ new_session w,
          new_session v,
          refl,
        ))
