-- ===== src/Api/Effects.antt =====
-- What a request does to the state: nothing, or one step of a service.
pub mod States
use backend_assessment_chall.Prelude.{
  Option, ap, inl, inr, none, not, refl, some, subst, sym, true, ◌∙◌, ◌≡◌, ◌⊎◌,
}
use backend_assessment_chall.Api.{dispatch, reply_to, serve}
use backend_assessment_chall.Api.Access.{Admitted, serve-cases}
use backend_assessment_chall.Api.Bodies.{
  create_event_dto, deposit_dto, login_dto, purchase_dto, refresh_token_dto, register_dto,
  transfer_dto,
}
use backend_assessment_chall.Api.Effects.States.{
  after_body, after_test, answering-state, for_current_user-state, get_event-state,
  get_me_limited-state,
}
use backend_assessment_chall.Api.Handlers.{
  answering, for_current_user, get_me_limited, invalid_body, invalid_uuid,
}
use backend_assessment_chall.Api.Routes.{is_protected}
use backend_assessment_chall.Api.Types.{
  Answer, Edge, Request, Route, auth_admin_check, auth_login, auth_logout, auth_me, auth_refresh,
  auth_register, deposited, event_created, event_shown, get_hello, health_check, nothing,
  order_result, sale_create_event, sale_get_event, sale_purchase, tokens, transferred,
  wallet_deposit, wallet_get_me, wallet_transfer, wallet_view,
}
use backend_assessment_chall.Auth.{login, logout, refresh, register}
use backend_assessment_chall.Auth.Types.{
  Crypto, CurrentUserPayload, JwtConfig, LoginDto, RegisterDto,
}
use backend_assessment_chall.FlashSale.{create_event, get_event, purchase}
use backend_assessment_chall.FlashSale.Types.{
  CreateFlashSaleEventDto, Environment, PurchaseFlashSaleDto,
}
use backend_assessment_chall.Prelude.Text.{Text}
use backend_assessment_chall.Wallet.{deposit, transfer}
use backend_assessment_chall.Wallet.Types.{DepositDto, Runtime, TransferDto}
use backend_assessment_chall.World.{Result, World, err, ok}

module _ ⦃runtime : Runtime⦄ (crypto : Crypto) (config : JwtConfig) (env : Environment)
    (edge : Edge) (request : Request) (w : World) where
  -- The state after the one call of a service that the handler of the route makes, for the user
  -- whom the guards have let pass.
  pub data Handled : Route → Option CurrentUserPayload → World → Type 0 where
    register_call :
        {u : Option CurrentUserPayload} (dto : RegisterDto)
        → Handled auth_register u (register crypto config dto w).1
    login_call :
        {u : Option CurrentUserPayload} (dto : LoginDto)
        → Handled auth_login u (login crypto config dto w).1
    refresh_call :
        {u : Option CurrentUserPayload} (token : Text)
        → Handled auth_refresh u (refresh crypto config token w).1
    logout_call :
        {u : Option CurrentUserPayload} (token : Text)
        → Handled auth_logout u (logout crypto config token w).1
    deposit_call :
        {u : Option CurrentUserPayload} (user : CurrentUserPayload) (dto : DepositDto)
        → u ≡ some user
        → deposit_dto request.body ≡ some dto
        → Handled wallet_deposit u (deposit user.user_id dto w).1
    transfer_call :
        {u : Option CurrentUserPayload} (user : CurrentUserPayload) (dto : TransferDto)
        → u ≡ some user
        → transfer_dto edge request.body ≡ some dto
        → Handled wallet_transfer u (transfer user.user_id dto w).1
    event_call :
        {u : Option CurrentUserPayload} (dto : CreateFlashSaleEventDto)
        → Handled sale_create_event u (create_event dto w).1
    purchase_call :
        {u : Option CurrentUserPayload} (user : CurrentUserPayload) (dto : PurchaseFlashSaleDto)
        → u ≡ some user
        → purchase_dto edge request.body ≡ some dto
        → Handled sale_purchase u (purchase env user.user_id dto w).1

module _ ⦃runtime : Runtime⦄ (crypto : Crypto) (config : JwtConfig) (env : Environment)
    (edge : Edge) (request : Request) (w : World) where
  -- The state is as before, or a service has made one step.
  abbrev pub Stepped : Route → Option CurrentUserPayload → World → Type 0
  Stepped route u v = (v ≡ w) ⊎ Handled crypto config env edge request w route u v

  dispatch-Stepped :
      (route : Route) (u : Option CurrentUserPayload)
      → Stepped route u (dispatch crypto config env edge route request u w).1
  unfolding dispatch
  dispatch-Stepped get_hello u = inl refl
  dispatch-Stepped health_check u = inl refl
  dispatch-Stepped auth_register u =
      after_body (Stepped auth_register u) (register_dto edge request.body) invalid_body
        (λ dto. answering tokens (register crypto config dto)) w (inl refl)
        (λ dto e.
          answering-state (Stepped auth_register u) tokens (register crypto config dto) w
            (inr (register_call dto)))
  dispatch-Stepped auth_login u =
      after_body (Stepped auth_login u) (login_dto edge request.body) invalid_body
        (λ dto. answering tokens (login crypto config dto)) w (inl refl)
        (λ dto e.
          answering-state (Stepped auth_login u) tokens (login crypto config dto) w
            (inr (login_call dto)))
  dispatch-Stepped auth_refresh u =
      after_body (Stepped auth_refresh u) (refresh_token_dto edge request.body) invalid_body
        (λ t. answering tokens (refresh crypto config t)) w (inl refl)
        (λ t e.
          answering-state (Stepped auth_refresh u) tokens (refresh crypto config t) w
            (inr (refresh_call t)))
  dispatch-Stepped auth_logout u =
      after_body (Stepped auth_logout u) (refresh_token_dto edge request.body) invalid_body
        (λ t. answering (λ x. nothing) (logout crypto config t)) w (inl refl)
        (λ t e.
          answering-state (Stepped auth_logout u) (λ x. nothing) (logout crypto config t) w
            (inr (logout_call t)))
  dispatch-Stepped auth_me none = inl refl
  dispatch-Stepped auth_me (some user) = inl refl
  dispatch-Stepped auth_admin_check u = inl refl
  dispatch-Stepped wallet_deposit u =
      after_body (Stepped wallet_deposit u) (deposit_dto request.body) invalid_body
        (λ dto. for_current_user u (λ id. answering deposited (deposit id dto))) w (inl refl)
        (λ dto e.
          for_current_user-state (Stepped wallet_deposit u) u
            (λ id. answering deposited (deposit id dto)) w (inl refl)
            (λ user is_user.
              answering-state (Stepped wallet_deposit u) deposited (deposit user.user_id dto) w
                (inr (deposit_call user dto is_user e))))
  dispatch-Stepped wallet_transfer u =
      after_body (Stepped wallet_transfer u) (transfer_dto edge request.body) invalid_body
        (λ dto. for_current_user u (λ id. answering transferred (transfer id dto))) w (inl refl)
        (λ dto e.
          for_current_user-state (Stepped wallet_transfer u) u
            (λ id. answering transferred (transfer id dto)) w (inl refl)
            (λ user is_user.
              answering-state (Stepped wallet_transfer u) transferred (transfer user.user_id dto) w
                (inr (transfer_call user dto is_user e))))
  dispatch-Stepped wallet_get_me u =
      for_current_user-state (Stepped wallet_get_me u) u
        (λ id. answering wallet_view (get_me_limited edge id request.limit)) w (inl refl)
        (λ user is_user.
          answering-state (Stepped wallet_get_me u) wallet_view
            (get_me_limited edge user.user_id request.limit) w
            (inl (get_me_limited-state edge user.user_id request.limit w)))
  dispatch-Stepped sale_create_event u =
      after_body (Stepped sale_create_event u) (create_event_dto edge w.clock request.body)
        invalid_body (λ dto. answering event_created (create_event dto)) w (inl refl)
        (λ dto e.
          answering-state (Stepped sale_create_event u) event_created (create_event dto) w
            (inr (event_call dto)))
  dispatch-Stepped sale_get_event u =
      after_test (Stepped sale_get_event u) (not (edge.is_uuid request.path_id)) invalid_uuid
        (answering event_shown (get_event request.path_id)) w (inl refl)
        (answering-state (Stepped sale_get_event u) event_shown (get_event request.path_id) w
          (inl (get_event-state request.path_id w)))
  dispatch-Stepped sale_purchase u =
      after_body (Stepped sale_purchase u) (purchase_dto edge request.body) invalid_body
        (λ dto. for_current_user u (λ id. answering order_result (purchase env id dto))) w
        (inl refl)
        (λ dto e.
          for_current_user-state (Stepped sale_purchase u) u
            (λ id. answering order_result (purchase env id dto)) w (inl refl)
            (λ user is_user.
              answering-state (Stepped sale_purchase u) order_result (purchase env user.user_id dto)
                w (inr (purchase_call user dto is_user e))))

  reply_to-state : (x : Result Answer × World) → (reply_to edge request w x).1 ≡ x.1
  unfolding reply_to
  reply_to-state (ok a, v) = refl
  reply_to-state (err e, v) = refl

  -- Of any request: it changes nothing, or the state is what the route's service makes of it, for a
  -- user whom the guards have let pass.
  pub serve-Stepped :
      ((serve crypto config env edge request w).1 ≡ w)
      ⊎ ((u : Option CurrentUserPayload) × Handled crypto config env edge request w request.route u
            (serve crypto config env edge request w).1
          × (is_protected request.route ≡ true → Admitted edge request w.clock u))
  serve-Stepped = elim (serve-cases crypto config env edge request w) [
    | inl (e, same, refusal) ↦ inl (ap (λ x. x.1) same)
    | inr (u, handled, admitted) ↦
        let same : (serve crypto config env edge request w).1
            ≡ (dispatch crypto config env edge request.route request u w).1 =
          ap (λ x. x.1) handled
          ∙ reply_to-state (dispatch crypto config env edge request.route request u w) in
        elim (dispatch-Stepped request.route u) [
          | inl kept ↦ inl (same ∙ kept)
          | inr step ↦ inr (
            u,
            subst (Handled crypto config env edge request w request.route u) (sym same) step,
            admitted,
          )
        ]
  ]
