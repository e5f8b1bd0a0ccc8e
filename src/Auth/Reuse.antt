-- ===== src/Auth/Reuse.antt =====
-- `refresh` in src/auth/auth.service.ts: a refresh token at its first use, and at a later one.
use backend_assessment_chall.Prelude.{
  List, [], arith, false, none, refl, some, suc, true, ℕ, ◌∙◌, ◌∷◌, ◌≡◌, ◌≢◌,
}
use backend_assessment_chall.Auth.{
  is_filled, issue_token_pair, refresh, refresh_key, refuse_reuse, revoke_all_sessions, rotate,
  sessions_revoked, user_by_id, verify_refresh_token,
}
use backend_assessment_chall.Auth.Rotation.{
  issue_token_pair-Issued, pair_for, refresh_key-injective,
}
use backend_assessment_chall.Auth.Sessions.{colon_free, revoke_all_sessions-session, session}
use backend_assessment_chall.Auth.Ttl.{ttl_to_seconds}
use backend_assessment_chall.Auth.Types.{AuthTokensDto, Crypto, JwtConfig, RefreshTokenPayload}
use backend_assessment_chall.Prelude.Table.{find_by-erase_by_ne, find_by-erase_by_self, find_by-key}
use backend_assessment_chall.Prelude.Text.{Text, codes, text_discrete}
use backend_assessment_chall.Redis.{erase_all, redis_del, redis_get, redis_keys, stored_by_key}
use backend_assessment_chall.Schema.{User}
use backend_assessment_chall.World.{Stored, World, err, ok}
use backend_assessment_chall.World.Ensures.{Outcome, Outcome-implies}

pub user_by_id-id :
    (id : Text) (users : List User) (user : User) → user_by_id id users ≡ some user → user.id ≡ id
unfolding user_by_id
user_by_id-id = find_by-key text_discrete (λ u. u.id)

-- The session of the payload is gone.
abbrev pub without : RefreshTokenPayload → World → World
without p w = (redis_del (refresh_key p.sub p.jti ∷ []) w).1

pub without-gone :
    (p : RefreshTokenPayload) (w : World)
    → stored_by_key (refresh_key p.sub p.jti) (without p w).redis ≡ none
unfolding redis_del erase_all stored_by_key
without-gone p w =
    find_by-erase_by_self text_discrete (λ (s : Stored). s.key) (refresh_key p.sub p.jti) w.redis

pub without-other :
    (p : RefreshTokenPayload) (k : Text) (w : World)
    → k ≢ refresh_key p.sub p.jti
    → stored_by_key k (without p w).redis ≡ stored_by_key k w.redis
unfolding redis_del erase_all stored_by_key
without-other p k w ne =
    find_by-erase_by_ne text_discrete (λ (s : Stored). s.key) k (refresh_key p.sub p.jti) w.redis ne

module _ (crypto : Crypto) (config : JwtConfig) (seconds : ℕ)
    (ttl : ttl_to_seconds config.refresh_ttl ≡ some (suc seconds)) (token : Text) (w : World)
    (p : RefreshTokenPayload)
    (valid : crypto.verify_refresh config.refresh_secret false w.clock token ≡ some p) where
  refresh_found :
      (user : User)
      → is_filled (session p.sub p.jti w) ≡ true
      → user_by_id p.sub w.db.users ≡ some user
      → refresh crypto config token w ≡ issue_token_pair crypto config p.sub user.role (without p w)
  unfolding refresh verify_refresh_token redis_get rotate redis_del
  refresh_found user live found = ground (arith, user_by_id-id p.sub w.db.users user found)

  -- A refresh token that is valid, has its session, and belongs to a user who exists, is rotated:
  -- the reply is a new pair of tokens for that user and the role that the user has now, the old
  -- session is gone, the new one lives, and the data base stays as it is. It is supposed that the
  -- UUID drawn for the new token is not the old token's, and that the lifetime can be read and is
  -- not 0.
  pub refresh-rotates :
      (user : User)
      → is_filled (session p.sub p.jti w) ≡ true
      → user_by_id p.sub w.db.users ≡ some user
      → w.uuids w.drawn ≢ p.jti
      → Outcome
          (λ e w'. ⊥)
          (λ r w'.
            (r ≡ pair_for crypto config p.sub user.role w)
            × (session p.sub p.jti w' ≡ none)
            × (session p.sub (w.uuids w.drawn) w' ≡ some (codes "1"))
            × (w'.db ≡ w.db)
            × (w'.clock ≡ w.clock))
          (refresh crypto config token w)
  unfolding redis_del
  refresh-rotates user live found fresh = rw (refresh_found user live found) (
      Outcome-implies _ (λ e w'. ⊥) _ _
        (issue_token_pair crypto config p.sub user.role (without p w))
        (issue_token_pair-Issued crypto config p.sub user.role seconds (without p w) ttl)
        (λ e w' q. q)
        (λ r w' q. (
          q.reply,
          ground (
            arith,
            q.others (refresh_key p.sub p.jti),
            without-gone p w,
            refresh_key-injective p.sub p.jti (w.uuids w.drawn),
          ),
          ground (arith, q.stored, q.same_clock),
          q.same_db,
          q.same_clock,
        )))

module _ (crypto : Crypto) (config : JwtConfig) (token : Text) (w : World) (p : RefreshTokenPayload)
    (valid : crypto.verify_refresh config.refresh_secret false w.clock token ≡ some p) where
  refresh_unfound :
      is_filled (session p.sub p.jti w) ≡ false
      → refresh crypto config token w ≡ (err sessions_revoked, (revoke_all_sessions p.sub w).1)
  unfolding refresh verify_refresh_token redis_get refuse_reuse revoke_all_sessions redis_keys
      redis_del
  refresh_unfound gone = ground arith

  -- A valid refresh token with no session ends every session of its user, whose id has no colon,
  -- and is refused; the data base stays as it is.
  pub refresh-reused :
      (jti : Text)
      → is_filled (session p.sub p.jti w) ≡ false
      → colon_free p.sub ≡ true
      → let (r, w') = refresh crypto config token w in
        (r ≡ err sessions_revoked) × (session p.sub jti w' ≡ none) × (w'.db ≡ w.db)
  unfolding revoke_all_sessions redis_keys redis_del
  refresh-reused jti gone free =
      rw (refresh_unfound gone)
        (refl, ground (arith, revoke_all_sessions-session p.sub p.sub jti w free free), refl)

module _ (crypto : Crypto) (config : JwtConfig) (seconds : ℕ)
    (ttl : ttl_to_seconds config.refresh_ttl ≡ some (suc seconds)) (token : Text)
    (p : RefreshTokenPayload) where
  -- A refresh token that was rotated and is sent once more in the state that the rotation left is
  -- refused, and no session of its user is left, the one of the new pair included; the data base
  -- stays as it is. It is supposed that the token is valid, has its session, and belongs to a
  -- user who exists and whose id has no colon, that the UUID drawn for the new token is not the
  -- old token's, and that the lifetime can be read and is not 0.
  pub refresh-once :
      (w w' : World) (user : User) (t : AuthTokensDto) (jti : Text)
      → crypto.verify_refresh config.refresh_secret false w.clock token ≡ some p
      → is_filled (session p.sub p.jti w) ≡ true
      → user_by_id p.sub w.db.users ≡ some user
      → w.uuids w.drawn ≢ p.jti
      → colon_free p.sub ≡ true
      → refresh crypto config token w ≡ (ok t, w')
      → let (r, w'') = refresh crypto config token w' in
        (r ≡ err sessions_revoked) × (session p.sub jti w'' ≡ none) × (w''.db ≡ w.db)
  refresh-once w w' user t jti valid live found fresh free done =
      let (reply, gone, new, db, clock) =
        rw done at
          (refresh-rotates crypto config seconds ttl token w p valid user live found fresh) in
      let (refused, ended, same) =
        refresh-reused crypto config token w' p (rw clock valid) jti (rw gone refl) free in
      (refused, ended, same ∙ db)
