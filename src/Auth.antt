-- ===== src/Auth.antt =====
-- src/auth/auth.service.ts: the methods of `AuthService`. A session is a key of Redis,
-- "refresh:" with the user's id and the token's id.
pub mod Types
pub mod Ttl
pub mod Sessions
pub mod Registration
pub mod Rotation
pub mod Reuse
pub mod Race
pub mod Access
pub mod Durations
use backend_assessment_chall.Prelude.{
  Bool, List, Option, [], false, if◌then◌else◌, is_some, none, not, some, true, ◌++◌, ◌==◌, ◌||◌,
  ◌∷◌,
}
use backend_assessment_chall.Auth.Ttl.{ttl_to_seconds}
use backend_assessment_chall.Auth.Types.{
  AuthTokensDto, Crypto, JwtConfig, LoginDto, RefreshTokenPayload, RegisterDto,
}
use backend_assessment_chall.Prelude.Table.{find_by}
use backend_assessment_chall.Prelude.Text.{Text, codes, text_discrete}
use backend_assessment_chall.Redis.{redis_del, redis_get, redis_keys, redis_set}
use backend_assessment_chall.Schema.{Role, User}
use backend_assessment_chall.Wallet.Provision.{provision_wallet}
use backend_assessment_chall.World.{
  Action, Exception, HttpError, gets, http_exception, known_request, modify_db, or_throw, p2002,
  plain_error, pure, random_uuid, throw, throw_if, transaction, ◌>>=◌, ◌>>◌,
}

abbrev pub refresh_key_prefix : Text
refresh_key_prefix = codes "refresh"

-- `refresh:${userId}:`
unfoldable pub session_prefix : Text → Text
session_prefix user_id = refresh_key_prefix ++ (codes ":" ++ (user_id ++ codes ":"))

unfoldable pub refresh_key : Text → Text → Text
refresh_key user_id jti = refresh_key_prefix ++ (codes ":" ++ (user_id ++ (codes ":" ++ jti)))

abbrev pub email_taken : Exception
email_taken = http_exception HttpError.conflict (codes "A user with this email already exists")

abbrev pub invalid_credentials : Exception
invalid_credentials = http_exception HttpError.unauthorized (codes "Invalid credentials")

abbrev pub invalid_refresh_token : Exception
invalid_refresh_token =
    http_exception HttpError.unauthorized (codes "Invalid or expired refresh token")

abbrev pub sessions_revoked : Exception
sessions_revoked =
    http_exception HttpError.unauthorized
      (codes "Refresh token is no longer valid; all sessions have been revoked")

abbrev pub user_gone : Exception
user_gone = http_exception HttpError.unauthorized (codes "User no longer exists")

abbrev pub invalid_ttl : Exception
invalid_ttl = plain_error (codes "Invalid TTL format")

-- What Redis answers to a time to live of 0.
abbrev pub invalid_expire : Exception
invalid_expire = plain_error (codes "ERR invalid expire time in 'set' command")

unfoldable pub user_by_email : Text → List User → Option User
unfolding find_by
user_by_email = find_by text_discrete (λ u. u.email)

unfoldable pub user_by_id : Text → List User → Option User
unfolding find_by
user_by_id = find_by text_discrete (λ u. u.id)

-- `tx.user.create({ data: { email, password } })`
unfoldable pub create_user : Text → Text → Action User
create_user email password = do
  id ← random_uuid
  same_id ← gets (λ w. user_by_id id w.db.users)
  same_email ← gets (λ w. user_by_email email w.db.users)
  throw_if (is_some same_id || is_some same_email) (known_request p2002)
  now ← gets (λ w. w.clock)
  let user : User = record {
    id = id;
    email = email;
    password = password;
    role = Role.customer;
    created_at = now;
  }
  modify_db (λ db. record db { users = user ∷ db.users })
  pure user

-- What `if (!exists)` takes for there: a text that is not empty.
abbrev pub is_filled : Option Text → Bool
is_filled none = false
is_filled (some []) = false
is_filled (some (c ∷ cs)) = true

unfoldable pub revoke_all_sessions : Text → Action (Unit {0})
revoke_all_sessions user_id = do keys ← redis_keys (session_prefix user_id); redis_del keys

-- The transaction of `register`.
unfoldable pub register_user : Text → Text → Action User
register_user email hashed =
    transaction (do created ← create_user email hashed; provision_wallet created.id; pure created)

module _ (crypto : Crypto) (config : JwtConfig) where
  open crypto use {hash, compare_hash, sign_access, sign_refresh, verify_refresh}

  unfoldable pub issue_token_pair : Text → Role → Action AuthTokensDto
  issue_token_pair user_id role = do
    now ← gets (λ w. w.clock)
    let access_token : Text =
        sign_access config.access_secret config.access_ttl now
          (record { sub = user_id; role = role })
    jti ← random_uuid
    let refresh_token : Text =
        sign_refresh config.refresh_secret config.refresh_ttl now
          (record { sub = user_id; jti = jti })
    seconds ← or_throw (ttl_to_seconds config.refresh_ttl) invalid_ttl
    throw_if (seconds == 0) invalid_expire
    redis_set (refresh_key user_id jti) (codes "1") seconds
    pure (record { access_token = access_token; refresh_token = refresh_token })

  unfoldable pub register : RegisterDto → Action AuthTokensDto
  register dto = do
    existing ← gets (λ w. user_by_email dto.email w.db.users)
    throw_if (is_some existing) email_taken
    hashed ← gets (λ w. hash w dto.password)
    user ← register_user dto.email hashed
    issue_token_pair user.id user.role

  unfoldable pub login : LoginDto → Action AuthTokensDto
  login dto = do
    found ← gets (λ w. user_by_email dto.email w.db.users)
    user ← or_throw found invalid_credentials
    throw_if (not (compare_hash dto.password user.password)) invalid_credentials
    issue_token_pair user.id user.role

  unfoldable pub verify_refresh_token : Text → Bool → Action RefreshTokenPayload
  verify_refresh_token token ignore_expiration = do
    now ← gets (λ w. w.clock)
    or_throw (verify_refresh config.refresh_secret ignore_expiration now token)
        invalid_refresh_token

  -- `refresh` when the session is there.
  unfoldable pub rotate : RefreshTokenPayload → Action AuthTokensDto
  rotate payload = do
    redis_del (refresh_key payload.sub payload.jti ∷ [])
    found ← gets (λ w. user_by_id payload.sub w.db.users)
    user ← or_throw found user_gone
    issue_token_pair user.id user.role

  -- `refresh` when the session is not there.
  unfoldable pub refuse_reuse : RefreshTokenPayload → Action AuthTokensDto
  refuse_reuse payload = do revoke_all_sessions payload.sub; throw sessions_revoked

  unfoldable pub refresh : Text → Action AuthTokensDto
  refresh token = do
    payload ← verify_refresh_token token false
    exists ← redis_get (refresh_key payload.sub payload.jti)
    if is_filled exists then rotate payload else refuse_reuse payload

  unfoldable pub logout : Text → Action (Unit {0})
  logout token = do
    payload ← verify_refresh_token token true
    redis_del (refresh_key payload.sub payload.jti ∷ [])
