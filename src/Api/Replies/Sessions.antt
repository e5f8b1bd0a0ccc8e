-- ===== src/Api/Replies/Sessions.antt =====
-- What the operations of src/auth/auth.service.ts throw.
use backend_assessment_chall.Prelude.{[], arith, ◌∷◌}
use backend_assessment_chall.Api.Replies.{Throws}
use backend_assessment_chall.Auth.{
  create_user, issue_token_pair, login, logout, refresh, refuse_reuse, register, register_user,
  revoke_all_sessions, rotate, verify_refresh_token,
}
use backend_assessment_chall.Auth.Types.{Crypto, JwtConfig, LoginDto, RegisterDto}
use backend_assessment_chall.Prelude.Text.{Text}
use backend_assessment_chall.Redis.{redis_del, redis_get, redis_keys, redis_set}
use backend_assessment_chall.Schema.{Role}
use backend_assessment_chall.Wallet.Provision.{provision_wallet}
use backend_assessment_chall.World.{World, random_uuid}

register_user-Throws : (email hashed : Text) (w : World) → Throws [] (register_user email hashed w)
unfolding register_user create_user provision_wallet random_uuid
register_user-Throws email hashed w = ground arith

module _ (crypto : Crypto) (config : JwtConfig) where
  issue_token_pair-Throws :
      (user_id : Text) (role : Role) (w : World)
      → Throws [] (issue_token_pair crypto config user_id role w)
  unfolding issue_token_pair random_uuid redis_set
  issue_token_pair-Throws user_id role w = ground arith

  pub register-Throws :
      (dto : RegisterDto) (w : World) → Throws (409 ∷ []) (register crypto config dto w)
  unfolding register
  register-Throws dto w = grind (arith, register_user-Throws, issue_token_pair-Throws)

  pub login-Throws : (dto : LoginDto) (w : World) → Throws (401 ∷ []) (login crypto config dto w)
  unfolding login
  login-Throws dto w = grind (arith, issue_token_pair-Throws)

  pub refresh-Throws :
      (token : Text) (w : World) → Throws (401 ∷ []) (refresh crypto config token w)
  unfolding refresh verify_refresh_token rotate refuse_reuse revoke_all_sessions redis_get redis_del
      redis_keys
  refresh-Throws token w = grind (arith, issue_token_pair-Throws)

  pub logout-Throws : (token : Text) (w : World) → Throws (401 ∷ []) (logout crypto config token w)
  unfolding logout verify_refresh_token redis_del
  logout-Throws token w = ground arith
