-- ===== src/Api.antt =====
-- A request from its guards to its reply: the controllers (src/auth/auth.controller.ts,
-- src/modules/wallet/wallet.controller.ts, src/modules/flash-sale/flash-sale.controller.ts,
-- src/health/health.controller.ts, src/app.controller.ts) with the guards and decorators of their
-- routes, in the order of NestJS: the throttler, the token, the roles, the body, the service, and
-- the exception filter.
pub mod Types
pub mod Bodies
pub mod Routes
pub mod Handlers
pub mod Access
pub mod Effects
pub mod Served
pub mod Banking
pub mod Retries
pub mod Replies
use backend_assessment_chall.Prelude.{Bool, Option, if◌then◌else◌, none, not, some, ℕ, ◌&&◌}
use backend_assessment_chall.Api.Handlers.{
  handle_admin_check, handle_create_event, handle_deposit, handle_get_event, handle_get_me,
  handle_health, handle_hello, handle_login, handle_logout, handle_me, handle_purchase,
  handle_refresh, handle_register, handle_transfer,
}
use backend_assessment_chall.Api.Routes.{
  default_throttle, is_protected, required_roles, skips_throttle, success_status, throttle_of,
}
use backend_assessment_chall.Api.Types.{
  Answer, Edge, Request, Route, auth_admin_check, auth_login, auth_logout, auth_me, auth_refresh,
  auth_register, get_hello, health_check, sale_create_event, sale_get_event, sale_purchase,
  wallet_deposit, wallet_get_me, wallet_transfer,
}
use backend_assessment_chall.Auth.Types.{Crypto, CurrentUserPayload, JwtConfig}
use backend_assessment_chall.FlashSale.Types.{Environment}
use backend_assessment_chall.Guards.{can_activate, validate}
use backend_assessment_chall.Http.{
  Correlated, UnifiedErrorResponse, catch_exception, correlate, gen_req_id,
}
use backend_assessment_chall.Prelude.Text.{Text, codes}
use backend_assessment_chall.Wallet.Types.{Runtime}
use backend_assessment_chall.World.{
  Action, Exception, HttpError, Result, World, err, gets, http_exception, ok, or_throw, pure,
  throw_if, ◌>>=◌, ◌>>◌,
}

abbrev pub unauthorized_request : Exception
unauthorized_request = http_exception HttpError.unauthorized (codes "Unauthorized")

abbrev pub too_many : Exception
too_many =
    http_exception HttpError.too_many_requests (codes "ThrottlerException: Too Many Requests")

unfoldable pub of_result : {A : Type 0} → Result A → Action A
of_result r w = (r, w)

module _ (edge : Edge) where
  -- `JwtAuthGuard`, and `RolesGuard` with the roles of the route.
  unfoldable pub admit : Request → Action (Option CurrentUserPayload)
  admit request = do
    claims ←
        or_throw (← gets (λ w. edge.authenticate w.clock request.authorization))
          unauthorized_request
    user ← of_result (validate claims)
    of_result (can_activate (required_roles request.route) (some user))
    pure (some user)

  -- `ThrottlerGuard`, the `APP_GUARD` of src/app.module.ts.
  unfoldable pub is_over_limit : Request → World → Bool
  is_over_limit request w =
      not (skips_throttle request.route)
      && edge.is_throttled
          (throttle_of (default_throttle edge.parse_int edge.throttle_ttl edge.throttle_limit)
            request.route)
          request w

  -- The guards: the throttler's, which is global, and those of the route.
  unfoldable pub authorise : Request → Action (Option CurrentUserPayload)
  authorise request = do
    throttled ← gets (is_over_limit request)
    throw_if throttled too_many
    if is_protected request.route then admit request else pure none

-- What the client gets: the answer with the status of the route, or what the filter makes of the
-- exception.
pub data Reply : Type 0 where
  answered_with : ℕ → Text → Answer → Reply
  failed_with : UnifiedErrorResponse → Reply

unfoldable pub reply_to : Edge → Request → World → Result Answer × World → Reply × World
reply_to edge request start (r, w) =
    let exchange : Correlated =
      correlate (some (gen_req_id request.correlation (edge.pino_id start))) request.correlation
        (edge.fresh_id start) in
    elim r [
      | ok answer ↦
          (answered_with (success_status request.route) exchange.response_header answer, w)
      | err e ↦ (
        failed_with
            (catch_exception edge.log_message (some exchange.correlation_id) w.clock none
              (edge.thrown e)).0,
        w,
      )
    ]

module _ ⦃runtime : Runtime⦄ (crypto : Crypto) (config : JwtConfig) (env : Environment)
    (edge : Edge) where
  -- The method of the route.
  unfoldable pub dispatch : Route → Request → Option CurrentUserPayload → Action Answer
  dispatch get_hello request user = handle_hello crypto config env edge
  dispatch health_check request user = handle_health crypto config env edge
  dispatch auth_register request user = handle_register crypto config env edge request
  dispatch auth_login request user = handle_login crypto config env edge request
  dispatch auth_refresh request user = handle_refresh crypto config env edge request
  dispatch auth_logout request user = handle_logout crypto config env edge request
  dispatch auth_me request user = handle_me crypto config env edge user
  dispatch auth_admin_check request user = handle_admin_check crypto config env edge
  dispatch wallet_deposit request user = handle_deposit crypto config env edge request user
  dispatch wallet_transfer request user = handle_transfer crypto config env edge request user
  dispatch wallet_get_me request user = handle_get_me crypto config env edge request user
  dispatch sale_create_event request user = handle_create_event crypto config env edge request
  dispatch sale_get_event request user = handle_get_event crypto config env edge request
  dispatch sale_purchase request user = handle_purchase crypto config env edge request user

  unfoldable pub serve_action : Request → Action Answer
  serve_action request = do user ← authorise edge request; dispatch request.route request user

  unfoldable pub serve : Request → World → Reply × World
  serve request w = reply_to edge request w (serve_action request w)
