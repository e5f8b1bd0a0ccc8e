-- ===== src/Tests/AuthCalls.antt =====
-- The theorems on accounts and sessions, at an account that is made in the sample shop.
use backend_assessment_chall.Prelude.{
  arith, false, ite, none, refl, some, suc, true, ℕ_discrete, ◌+◌, ◌≡◌, ◌≢◌,
}
use backend_assessment_chall.Auth.{
  create_user, invalid_ttl, is_filled, issue_token_pair, login, logout, refresh, refresh_key,
  register, register_user, revoke_all_sessions, rotate, sessions_revoked, user_by_email, user_by_id,
  verify_refresh_token,
}
use backend_assessment_chall.Auth.Access.{login-register, logout-ends}
use backend_assessment_chall.Auth.Race.{rotate-raced}
use backend_assessment_chall.Auth.Registration.{
  IsNew, new_user, register-unreadable_ttl, registered, with_user,
}
use backend_assessment_chall.Auth.Reuse.{refresh-once, refresh-rotates}
use backend_assessment_chall.Auth.Rotation.{Issued, pair_for}
use backend_assessment_chall.Auth.Sessions.{revoke_all_sessions-session, session}
use backend_assessment_chall.Auth.Ttl.{
  is_digit, is_space, last_unit, match_ttl, multiplier, read_ttl, trim_end, trim_start,
  ttl_to_seconds,
}
use backend_assessment_chall.Auth.Types.{AuthTokensDto, JwtConfig, RefreshTokenPayload, RegisterDto}
use backend_assessment_chall.Prelude.Table.{erase_by, find_by}
use backend_assessment_chall.Prelude.Text.{Text, codes, text_discrete}
use backend_assessment_chall.Redis.{erase_all, redis_del, redis_get, redis_set, stored_by_key}
use backend_assessment_chall.Schema.{Role, User, wallet_by_id, wallet_by_user}
use backend_assessment_chall.Tests.Codec.{get_text, put_text}
use backend_assessment_chall.Tests.Data.{ann, bob, shop}
use backend_assessment_chall.Tests.Tokens.{jwt, toy_crypto, toy_sign_refresh, toy_verify_refresh}
use backend_assessment_chall.Wallet.Provision.{provision_wallet}
use backend_assessment_chall.World.{World, err, ok, random_uuid}
use backend_assessment_chall.World.Ensures.{Outcome}

abbrev cleo : RegisterDto
cleo = record { email = codes "cleo@example.com"; password = codes "StrongP@ssw0rd" }

week_ttl : ttl_to_seconds jwt.refresh_ttl ≡ some (suc 604799)
unfolding ttl_to_seconds trim_start trim_end is_space match_ttl read_ttl last_unit is_digit
    multiplier
week_ttl = refl

abbrev joined : World
joined = (register toy_crypto jwt cleo shop).1

abbrev cleo_tokens : AuthTokensDto
cleo_tokens =
    pair_for toy_crypto jwt (codes "u") Role.customer (registered toy_crypto jwt cleo shop)

joining : register toy_crypto jwt cleo shop ≡ (ok cleo_tokens, joined)
unfolding register register_user create_user provision_wallet issue_token_pair random_uuid redis_set
    refresh_key erase_by user_by_email user_by_id wallet_by_id wallet_by_user find_by text_discrete
    ℕ_discrete ttl_to_seconds trim_start trim_end is_space match_ttl read_ttl last_unit is_digit
    multiplier
joining = refl

login-register_example :
    Outcome
      (λ e v. ⊥)
      (Issued toy_crypto jwt (codes "u") Role.customer 604800 joined)
      (login toy_crypto jwt (record { email = cleo.email; password = cleo.password }) joined)
login-register_example =
    login-register toy_crypto jwt cleo shop joined cleo_tokens 604799 week_ttl joining

abbrev cleo_session : RefreshTokenPayload
cleo_session = record { sub = codes "u"; jti = codes "uuu" }

abbrev cleo_row : User
cleo_row = new_user toy_crypto jwt cleo shop

cleo_valid :
    toy_crypto.verify_refresh jwt.refresh_secret false joined.clock cleo_tokens.refresh_token
    ≡ some cleo_session
unfolding toy_verify_refresh toy_sign_refresh put_text get_text text_discrete ℕ_discrete register
    register_user create_user provision_wallet issue_token_pair random_uuid redis_set refresh_key
    erase_by user_by_email user_by_id wallet_by_id wallet_by_user find_by ttl_to_seconds trim_start
    trim_end is_space match_ttl read_ttl last_unit is_digit multiplier
cleo_valid = refl

cleo_live : is_filled (session (codes "u") (codes "uuu") joined) ≡ true
unfolding stored_by_key register register_user create_user provision_wallet issue_token_pair
    random_uuid redis_set refresh_key erase_by user_by_email user_by_id wallet_by_id wallet_by_user
    find_by text_discrete ℕ_discrete ttl_to_seconds trim_start trim_end is_space match_ttl read_ttl
    last_unit is_digit multiplier
cleo_live = refl

cleo_found : user_by_id (codes "u") joined.db.users ≡ some cleo_row
unfolding stored_by_key register register_user create_user provision_wallet issue_token_pair
    random_uuid redis_set refresh_key erase_by user_by_email user_by_id wallet_by_id wallet_by_user
    find_by text_discrete ℕ_discrete ttl_to_seconds trim_start trim_end is_space match_ttl read_ttl
    last_unit is_digit multiplier
cleo_found = refl

next_is_new : joined.uuids joined.drawn ≢ codes "uuu"
unfolding register register_user create_user provision_wallet issue_token_pair random_uuid redis_set
    refresh_key erase_by user_by_email user_by_id wallet_by_id wallet_by_user find_by text_discrete
    ℕ_discrete ttl_to_seconds trim_start trim_end is_space match_ttl read_ttl last_unit is_digit
    multiplier
next_is_new e = ground arith

refresh-rotates_example :
    Outcome
      (λ e w'. ⊥)
      (λ r w'.
        (r ≡ pair_for toy_crypto jwt (codes "u") Role.customer joined)
        × (session (codes "u") (codes "uuu") w' ≡ none)
        × (session (codes "u") (joined.uuids joined.drawn) w' ≡ some (codes "1"))
        × (w'.db ≡ joined.db)
        × (w'.clock ≡ joined.clock))
      (refresh toy_crypto jwt cleo_tokens.refresh_token joined)
refresh-rotates_example =
    refresh-rotates toy_crypto jwt 604799 week_ttl cleo_tokens.refresh_token joined cleo_session
      cleo_valid cleo_row cleo_live cleo_found next_is_new

abbrev rotated : World
rotated = (refresh toy_crypto jwt cleo_tokens.refresh_token joined).1

abbrev next_tokens : AuthTokensDto
next_tokens = pair_for toy_crypto jwt (codes "u") Role.customer joined

rotating : refresh toy_crypto jwt cleo_tokens.refresh_token joined ≡ (ok next_tokens, rotated)
unfolding refresh verify_refresh_token rotate redis_get redis_del erase_all stored_by_key register
    toy_verify_refresh toy_sign_refresh put_text get_text register_user create_user provision_wallet
    issue_token_pair random_uuid redis_set refresh_key erase_by user_by_email user_by_id
    wallet_by_id wallet_by_user find_by text_discrete ℕ_discrete ttl_to_seconds trim_start trim_end
    is_space match_ttl read_ttl last_unit is_digit multiplier
rotating = refl

refresh-once_example :
    let (r, w') = refresh toy_crypto jwt cleo_tokens.refresh_token rotated in
    (r ≡ err sessions_revoked)
    × (session (codes "u") (joined.uuids joined.drawn) w' ≡ none)
    × (w'.db ≡ joined.db)
refresh-once_example =
    refresh-once toy_crypto jwt 604799 week_ttl cleo_tokens.refresh_token cleo_session joined
      rotated cleo_row next_tokens (joined.uuids joined.drawn) cleo_valid cleo_live cleo_found
      next_is_new refl rotating

logout-ends_example :
    let token = toy_crypto.sign_refresh jwt.refresh_secret jwt.refresh_ttl 0 cleo_session in
    let (r, w') = logout toy_crypto jwt token joined in
    (r ≡ ok tt)
    × (session (codes "u") (codes "uuu") w' ≡ none)
    × ((k : Text)
        → k ≢ refresh_key (codes "u") (codes "uuu")
        → stored_by_key k w'.redis ≡ stored_by_key k joined.redis)
    × (w'.db ≡ joined.db)
logout-ends_example = logout-ends toy_crypto jwt (codes "u") (codes "uuu") 0 joined

revoke_all_sessions-session_example :
    session ann (codes "x") (revoke_all_sessions bob joined).1
    ≡ ite (text_discrete ann bob) none (session ann (codes "x") joined)
revoke_all_sessions-session_example =
    revoke_all_sessions-session bob ann (codes "x") joined refl refl

-- jsonwebtoken reads a week so, and `ttlToSeconds` does not.
abbrev week_jwt : JwtConfig
week_jwt = record jwt { refresh_ttl = codes "1w" }

week_unreadable : ttl_to_seconds week_jwt.refresh_ttl ≡ none
unfolding ttl_to_seconds trim_start trim_end is_space match_ttl read_ttl last_unit is_digit
    multiplier
week_unreadable = refl

cleo-IsNew : IsNew toy_crypto week_jwt cleo shop
unfolding user_by_email user_by_id wallet_by_id wallet_by_user find_by text_discrete ℕ_discrete
cleo-IsNew = record { email = refl; user = refl; wallet = refl; owner = refl }

register-unreadable_ttl_example :
    let (r, w') = register toy_crypto week_jwt cleo shop in
    (r ≡ err invalid_ttl)
    × (w'.db ≡ with_user toy_crypto week_jwt cleo shop)
    × (w'.redis ≡ shop.redis)
register-unreadable_ttl_example =
    register-unreadable_ttl toy_crypto week_jwt cleo shop week_unreadable cleo-IsNew

next_two_apart : joined.uuids joined.drawn ≢ joined.uuids (joined.drawn + 1)
unfolding register register_user create_user provision_wallet issue_token_pair random_uuid redis_set
    refresh_key erase_by user_by_email user_by_id wallet_by_id wallet_by_user find_by text_discrete
    ℕ_discrete ttl_to_seconds trim_start trim_end is_space match_ttl read_ttl last_unit is_digit
    multiplier
next_two_apart e = ground arith

rotate-raced_example :
    let (r, v) = rotate toy_crypto jwt cleo_session joined in
    let (q, z) = rotate toy_crypto jwt cleo_session v in
    (r ≡ ok (pair_for toy_crypto jwt (codes "u") Role.customer joined))
    × (q ≡ ok (pair_for toy_crypto jwt (codes "u") Role.customer v))
    × (session (codes "u") (joined.uuids joined.drawn) z ≡ some (codes "1"))
    × (session (codes "u") (joined.uuids (joined.drawn + 1)) z ≡ some (codes "1"))
    × (z.db ≡ joined.db)
rotate-raced_example =
    rotate-raced toy_crypto jwt 604799 week_ttl cleo_session cleo_row joined cleo_found next_is_new
      next_two_apart
