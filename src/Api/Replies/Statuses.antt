-- ===== src/Api/Replies/Statuses.antt =====
-- The status of every reply, by the route.
-- The statuses, 500 aside, with which the handlers of the routes fail.
use backend_assessment_chall.Prelude.{
  List, Option, [], inl, inr, none, not, refl, some, subst, sym, true, ℕ, ◌∷◌, ◌≡◌, ◌⊎◌,
}
use backend_assessment_chall.Api.{Reply, answered_with, dispatch, failed_with, reply_to, serve}
use backend_assessment_chall.Api.Access.{IsRefused, refusal_body-status, serve-cases}
use backend_assessment_chall.Api.Bodies.{
  create_event_dto, deposit_dto, login_dto, purchase_dto, refresh_token_dto, register_dto,
  transfer_dto,
}
use backend_assessment_chall.Api.Handlers.{answering, for_current_user, get_me_limited}
use backend_assessment_chall.Api.Replies.{Throws, is_listed}
use backend_assessment_chall.Api.Replies.Money.{deposit-Throws, transfer-Throws}
use backend_assessment_chall.Api.Replies.Parts.{
  Throws-more, answering-Throws, body-Throws, for_current_user-Throws, get_me_limited-Throws,
  test-Throws,
}
use backend_assessment_chall.Api.Replies.Purchases.{
  create_event-Throws, get_event-Throws, purchase-Throws,
}
use backend_assessment_chall.Api.Replies.Sessions.{
  login-Throws, logout-Throws, refresh-Throws, register-Throws,
}
use backend_assessment_chall.Api.Routes.{success_status}
use backend_assessment_chall.Api.Types.{
  Answer, Edge, Request, Route, auth_admin_check, auth_login, auth_logout, auth_me, auth_refresh,
  auth_register, deposited, event_created, event_shown, get_hello, health_check, nothing,
  order_result, sale_create_event, sale_get_event, sale_purchase, tokens, transferred,
  wallet_deposit, wallet_get_me, wallet_transfer, wallet_view,
}
use backend_assessment_chall.Auth.{login, logout, refresh, register}
use backend_assessment_chall.Auth.Types.{Crypto, CurrentUserPayload, JwtConfig}
use backend_assessment_chall.FlashSale.{create_event, get_event, purchase}
use backend_assessment_chall.FlashSale.Types.{Environment}
use backend_assessment_chall.Http.{catch_exception}
use backend_assessment_chall.Wallet.{deposit, transfer}
use backend_assessment_chall.Wallet.Types.{Runtime}
use backend_assessment_chall.World.{Result, World, err, ok}

abbrev pub failures : Route → List ℕ
failures get_hello = []
failures health_check = []
failures auth_register = 400 ∷ 409 ∷ []
failures auth_login = 400 ∷ 401 ∷ []
failures auth_refresh = 400 ∷ 401 ∷ []
failures auth_logout = 400 ∷ 401 ∷ []
failures auth_me = []
failures auth_admin_check = []
failures wallet_deposit = 400 ∷ 404 ∷ []
failures wallet_transfer = 400 ∷ 404 ∷ []
failures wallet_get_me = 404 ∷ []
failures sale_create_event = 400 ∷ 404 ∷ []
failures sale_get_event = 400 ∷ 404 ∷ []
failures sale_purchase = 400 ∷ 404 ∷ 409 ∷ []

module _ ⦃runtime : Runtime⦄ (crypto : Crypto) (config : JwtConfig) (env : Environment)
    (edge : Edge) (request : Request) (w : World) where
  dispatch-Throws :
      (route : Route) (u : Option CurrentUserPayload)
      → Throws (failures route) (dispatch crypto config env edge route request u w)
  unfolding dispatch
  dispatch-Throws get_hello u = tt
  dispatch-Throws health_check u = tt
  dispatch-Throws auth_register u =
      body-Throws (409 ∷ []) (register_dto edge request.body)
        (λ dto. answering tokens (register crypto config dto)) w
        (λ dto.
          answering-Throws (400 ∷ 409 ∷ []) tokens (register crypto config dto) w
            (Throws-more 400 (409 ∷ []) _ (register-Throws crypto config dto w)))
  dispatch-Throws auth_login u =
      body-Throws (401 ∷ []) (login_dto edge request.body)
        (λ dto. answering tokens (login crypto config dto)) w
        (λ dto.
          answering-Throws (400 ∷ 401 ∷ []) tokens (login crypto config dto) w
            (Throws-more 400 (401 ∷ []) _ (login-Throws crypto config dto w)))
  dispatch-Throws auth_refresh u =
      body-Throws (401 ∷ []) (refresh_token_dto edge request.body)
        (λ t. answering tokens (refresh crypto config t)) w
        (λ t.
          answering-Throws (400 ∷ 401 ∷ []) tokens (refresh crypto config t) w
            (Throws-more 400 (401 ∷ []) _ (refresh-Throws crypto config t w)))
  dispatch-Throws auth_logout u =
      body-Throws (401 ∷ []) (refresh_token_dto edge request.body)
        (λ t. answering (λ x. nothing) (logout crypto config t)) w
        (λ t.
          answering-Throws (400 ∷ 401 ∷ []) (λ x. nothing) (logout crypto config t) w
            (Throws-more 400 (401 ∷ []) _ (logout-Throws crypto config t w)))
  dispatch-Throws auth_me none = refl
  dispatch-Throws auth_me (some user) = tt
  dispatch-Throws auth_admin_check u = tt
  dispatch-Throws wallet_deposit u =
      body-Throws (404 ∷ []) (deposit_dto request.body)
        (λ dto. for_current_user u (λ id. answering deposited (deposit id dto))) w
        (λ dto.
          for_current_user-Throws (400 ∷ 404 ∷ []) u (λ id. answering deposited (deposit id dto)) w
            (λ id.
              answering-Throws (400 ∷ 404 ∷ []) deposited (deposit id dto) w
                (Throws-more 400 (404 ∷ []) _ (deposit-Throws id dto w))))
  dispatch-Throws wallet_transfer u =
      body-Throws (404 ∷ []) (transfer_dto edge request.body)
        (λ dto. for_current_user u (λ id. answering transferred (transfer id dto))) w
        (λ dto.
          for_current_user-Throws (400 ∷ 404 ∷ []) u (λ id. answering transferred (transfer id dto))
            w
            (λ id.
              answering-Throws (400 ∷ 404 ∷ []) transferred (transfer id dto) w
                (transfer-Throws id dto w)))
  dispatch-Throws wallet_get_me u =
      for_current_user-Throws (404 ∷ []) u
        (λ id. answering wallet_view (get_me_limited edge id request.limit)) w
        (λ id.
          answering-Throws (404 ∷ []) wallet_view (get_me_limited edge id request.limit) w
            (get_me_limited-Throws edge id request.limit w))
  dispatch-Throws sale_create_event u =
      body-Throws (404 ∷ []) (create_event_dto edge w.clock request.body)
        (λ dto. answering event_created (create_event dto)) w
        (λ dto.
          answering-Throws (400 ∷ 404 ∷ []) event_created (create_event dto) w
            (Throws-more 400 (404 ∷ []) _ (create_event-Throws dto w)))
  dispatch-Throws sale_get_event u =
      test-Throws (404 ∷ []) (not (edge.is_uuid request.path_id))
        (answering event_shown (get_event request.path_id)) w
        (answering-Throws (400 ∷ 404 ∷ []) event_shown (get_event request.path_id) w
          (Throws-more 400 (404 ∷ []) _ (get_event-Throws request.path_id w)))
  dispatch-Throws sale_purchase u =
      body-Throws (404 ∷ 409 ∷ []) (purchase_dto edge request.body)
        (λ dto. for_current_user u (λ id. answering order_result (purchase env id dto))) w
        (λ dto.
          for_current_user-Throws (400 ∷ 404 ∷ 409 ∷ []) u
            (λ id. answering order_result (purchase env id dto)) w
            (λ id.
              answering-Throws (400 ∷ 404 ∷ 409 ∷ []) order_result (purchase env id dto) w
                (purchase-Throws env id dto w)))

  -- A reply that the guards, the handler or a fault may give.
  abbrev pub HasStatus : Reply → Type 0
  HasStatus (answered_with status id answer) = status ≡ success_status request.route
  HasStatus (failed_with body) =
      IsRefused request.route body.status_code
      ⊎ (is_listed body.status_code (failures request.route) ≡ true)

  reply_to-HasStatus :
      (x : Result Answer × World)
      → Throws (failures request.route) x
      → HasStatus (reply_to edge request w x).0
  unfolding reply_to catch_exception
  reply_to-HasStatus (ok answer, v) p = refl
  reply_to-HasStatus (err e, v) p = inr (rw (edge.thrown-status e) p)

  -- Every reply has a status of its route. An answer has the one of `@HttpCode`. A refusal has 401,
  -- if the route asks for a token, 403, if it asks for roles, or 429. Any other failure has one of
  -- the statuses listed for the route's handler, or 500; so a transfer is never answered with 409,
  -- and only a registration and a purchase are.
  pub serve-HasStatus : HasStatus (serve crypto config env edge request w).0
  serve-HasStatus = elim (serve-cases crypto config env edge request w) [
    | inl (e, refused_so, refusal) ↦
        subst (λ x. HasStatus x.0) (sym refused_so)
          (inl (rw (refusal_body-status crypto config env edge request w e) refusal))
    | inr (u, handled, admitted) ↦
        subst (λ x. HasStatus x.0) (sym handled)
          (reply_to-HasStatus _ (dispatch-Throws request.route u))
  ]
