-- ===== src/Guards.antt =====
-- Who may pass: src/auth/strategies/jwt.strategy.ts (`validate`), src/auth/guards/roles.guard.ts,
-- and src/modules/notifications/bull-board-admin.middleware.ts, which stands for both before the
-- board of the queues.
pub mod Board
use backend_assessment_chall.Prelude.{
  Bool, List, Option, [], drop, false, if◌then◌else◌, length, none, some, true, ℕ, ◌||◌, ◌∷◌,
}
use backend_assessment_chall.Auth.Types.{Claims, Crypto, CurrentUserPayload, JwtConfig}
use backend_assessment_chall.Prelude.Text.{Text, codes}
use backend_assessment_chall.Redis.{has_prefix}
use backend_assessment_chall.Schema.{Role}
use backend_assessment_chall.World.{
  Exception, HttpError, Result, err, http_exception, ok, ◌>>=◌, ◌>>◌,
}

abbrev pub invalid_payload : Exception
invalid_payload = http_exception HttpError.unauthorized (codes "Invalid access token payload")

abbrev pub no_permission : Exception
no_permission =
    http_exception HttpError.forbidden (codes "You do not have permission to access this resource")

-- `JwtStrategy.validate`, given `payload.sub` and `payload.role`.
unfoldable pub user_of_claims : Option Text → Option Role → Result CurrentUserPayload
user_of_claims none role = err invalid_payload
user_of_claims (some []) role = err invalid_payload
user_of_claims (some (c ∷ cs)) none = err invalid_payload
user_of_claims (some (c ∷ cs)) (some role) = ok (record { user_id = c ∷ cs; role = role })

unfoldable pub validate : Claims → Result CurrentUserPayload
validate claims = user_of_claims claims.sub claims.role

abbrev pub is_same_role : Role → Role → Bool
is_same_role Role.customer Role.customer = true
is_same_role Role.customer Role.admin = false
is_same_role Role.admin Role.customer = false
is_same_role Role.admin Role.admin = true

-- `requiredRoles.includes(role)`
unfoldable pub includes : List Role → Role → Bool
includes [] role = false
includes (r ∷ rs) role = is_same_role r role || includes rs role

-- `RolesGuard.canActivate`, given the metadata of `@Roles` and `request.user`.
unfoldable pub can_activate : Option (List Role) → Option CurrentUserPayload → Result Bool
can_activate none user = ok true
can_activate (some []) user = ok true
can_activate (some (r ∷ rs)) none = err no_permission
can_activate (some (r ∷ rs)) (some user) =
    if includes (r ∷ rs) user.role then ok true else err no_permission

-- What the middleware does: it calls `next`, or answers with a status.
pub data BoardReply : Type 0 where
  next_handler : BoardReply
  refused : ℕ → BoardReply

abbrev pub bearer : Text
bearer = codes "Bearer "

-- The token of the header; none, if the scheme is another.
abbrev pub bearer_token : Option Text → Option Text
bearer_token none = none
bearer_token (some header) =
    if has_prefix bearer header then some (drop (length bearer) header) else none

abbrev pub is_admin : Option Role → Bool
is_admin none = false
is_admin (some Role.customer) = false
is_admin (some Role.admin) = true

-- The `try` of the middleware, given what `verify` returns; none, if it throws.
abbrev pub board_verified : Option Claims → BoardReply
board_verified none = refused 401
board_verified (some claims) = if is_admin claims.role then next_handler else refused 403

module _ (crypto : Crypto) (config : JwtConfig) (now : ℕ) where
  abbrev pub board_token : Option Text → BoardReply
  board_token none = refused 401
  board_token (some []) = refused 401
  board_token (some (c ∷ cs)) =
      board_verified (crypto.verify_access config.access_secret now (c ∷ cs))

  -- `BullBoardAdminMiddleware.use`, given the header `authorization`.
  unfoldable pub board_use : Option Text → BoardReply
  board_use header = board_token (bearer_token header)
