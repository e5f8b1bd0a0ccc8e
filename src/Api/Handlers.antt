-- ===== src/Api/Handlers.antt =====
-- The methods of the controllers: src/auth/auth.controller.ts,
-- src/modules/wallet/wallet.controller.ts, src/modules/flash-sale/flash-sale.controller.ts,
-- src/health/health.controller.ts.
use backend_assessment_chall.Prelude.{Option, [], none, not, some, suc, ◌∷◌}
use backend_assessment_chall.Api.Bodies.{
  create_event_dto, deposit_dto, login_dto, purchase_dto, refresh_token_dto, register_dto,
  transfer_dto,
}
use backend_assessment_chall.Api.Types.{
  Answer, Edge, Request, admin_ok, current_user, deposited, event_created, event_shown, health,
  hello, nothing, order_result, tokens, transferred, wallet_view,
}
use backend_assessment_chall.Auth.{login, logout, refresh, register}
use backend_assessment_chall.Auth.Types.{Crypto, CurrentUserPayload, JwtConfig}
use backend_assessment_chall.FlashSale.{create_event, get_event, purchase}
use backend_assessment_chall.FlashSale.Types.{Environment}
use backend_assessment_chall.Health.{check}
use backend_assessment_chall.Prelude.Int.{negsuc, pos, ℤ}
use backend_assessment_chall.Prelude.Text.{Text, codes}
use backend_assessment_chall.Wallet.{default_ledger_limit, deposit, transfer}
use backend_assessment_chall.Wallet.Reads.{get_me, get_me_from_end}
use backend_assessment_chall.Wallet.Types.{Runtime, WalletView}
use backend_assessment_chall.World.{
  Action, Exception, HttpError, gets, http_exception, or_throw, plain_error, pure, throw, throw_if,
  ◌>>=◌, ◌>>◌,
}

abbrev pub invalid_body : Exception
invalid_body = http_exception HttpError.bad_request (codes "Bad Request Exception")

abbrev pub invalid_uuid : Exception
invalid_uuid = http_exception HttpError.bad_request (codes "Validation failed (uuid is expected)")

-- What Prisma says to `take: NaN`.
abbrev pub invalid_take : Exception
invalid_take = plain_error (codes "PrismaClientValidationError")

abbrev pub no_user : Exception
no_user = plain_error (codes "TypeError")

-- The user of the request, which the guard of the route has set.
unfoldable pub for_current_user : Option CurrentUserPayload → (Text → Action Answer) → Action Answer
for_current_user none handler = throw no_user
for_current_user (some user) handler = handler user.user_id

-- What a handler returns, as an answer.
abbrev pub answering : {A : Type 0} → (A → Answer) → Action A → Action Answer
answering f m = do a ← m; pure (f a)

-- `getMe` with `take: limit`, which may be NaN or negative.
unfoldable pub get_me_taking : Text → Option ℤ → Action WalletView
get_me_taking user_id none = throw invalid_take
get_me_taking user_id (some (pos n)) = get_me user_id n
get_me_taking user_id (some (negsuc n)) = get_me_from_end user_id (suc n)

module _ (edge : Edge) where
  -- `@Query('limit')`: none and the empty text are left to the default.
  unfoldable pub get_me_limited : Text → Option Text → Action WalletView
  get_me_limited user_id none = get_me user_id default_ledger_limit
  get_me_limited user_id (some []) = get_me user_id default_ledger_limit
  get_me_limited user_id (some (c ∷ cs)) = get_me_taking user_id (edge.parse_int (c ∷ cs))

module _ ⦃runtime : Runtime⦄ (crypto : Crypto) (config : JwtConfig) (env : Environment)
    (edge : Edge) where
  -- The methods of `AuthController`, with the pipes of their parameters.
  abbrev pub handle_register : Request → Action Answer
  handle_register request = do
    dto ← or_throw (register_dto edge request.body) invalid_body
    answering tokens (register crypto config dto)

  abbrev pub handle_login : Request → Action Answer
  handle_login request = do
    dto ← or_throw (login_dto edge request.body) invalid_body
    answering tokens (login crypto config dto)

  abbrev pub handle_refresh : Request → Action Answer
  handle_refresh request = do
    token ← or_throw (refresh_token_dto edge request.body) invalid_body
    answering tokens (refresh crypto config token)

  abbrev pub handle_logout : Request → Action Answer
  handle_logout request = do
    token ← or_throw (refresh_token_dto edge request.body) invalid_body
    answering (λ u. nothing) (logout crypto config token)

  abbrev pub handle_me : Option CurrentUserPayload → Action Answer
  handle_me none = throw no_user
  handle_me (some user) = pure (current_user user)

  -- The methods of `WalletController`.
  abbrev pub handle_deposit : Request → Option CurrentUserPayload → Action Answer
  handle_deposit request user = do
    dto ← or_throw (deposit_dto request.body) invalid_body
    for_current_user user (λ id. answering deposited (deposit id dto))

  abbrev pub handle_transfer : Request → Option CurrentUserPayload → Action Answer
  handle_transfer request user = do
    dto ← or_throw (transfer_dto edge request.body) invalid_body
    for_current_user user (λ id. answering transferred (transfer id dto))

  abbrev pub handle_get_me : Request → Option CurrentUserPayload → Action Answer
  handle_get_me request user =
      for_current_user user (λ id. answering wallet_view (get_me_limited edge id request.limit))

  -- The methods of `FlashSaleController`.
  abbrev pub handle_create_event : Request → Action Answer
  handle_create_event request = do
    now ← gets (λ w. w.clock)
    dto ← or_throw (create_event_dto edge now request.body) invalid_body
    answering event_created (create_event dto)

  abbrev pub handle_get_event : Request → Action Answer
  handle_get_event request = do
    throw_if (not (edge.is_uuid request.path_id)) invalid_uuid
    answering event_shown (get_event request.path_id)

  abbrev pub handle_purchase : Request → Option CurrentUserPayload → Action Answer
  handle_purchase request user = do
    dto ← or_throw (purchase_dto edge request.body) invalid_body
    for_current_user user (λ id. answering order_result (purchase env id dto))

  -- `AppController.getHello`
  abbrev pub handle_hello : Action Answer
  handle_hello = pure (hello (codes "Hello World!"))

  -- `AuthController.adminCheck`
  abbrev pub handle_admin_check : Action Answer
  handle_admin_check = pure admin_ok

  -- `HealthController.check`
  abbrev pub handle_health : Action Answer
  handle_health =
      answering health
        (gets (λ w. check (edge.probe_rows w) (edge.probe_ping w) (edge.probe_counts w)))
