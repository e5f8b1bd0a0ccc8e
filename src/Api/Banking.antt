-- ===== src/Api/Banking.antt =====
-- What a request does to the money, with whose token.
use backend_assessment_chall.Prelude.{Option, ap, arith, inl, inr, refl, some, true, ◌≡◌, ◌⊎◌}
use backend_assessment_chall.Api.{serve}
use backend_assessment_chall.Api.Access.{Admitted}
use backend_assessment_chall.Api.Bodies.{deposit_dto, purchase_dto, transfer_dto}
use backend_assessment_chall.Api.Bodies.Amounts.{deposit_dto-amount, transfer_dto-amount}
use backend_assessment_chall.Api.Effects.{
  Handled, deposit_call, event_call, login_call, logout_call, purchase_call, refresh_call,
  register_call, serve-Stepped, transfer_call,
}
use backend_assessment_chall.Api.Routes.{is_protected}
use backend_assessment_chall.Api.Types.{
  Edge, Request, Route, sale_purchase, wallet_deposit, wallet_transfer,
}
use backend_assessment_chall.Auth.Types.{Claims, Crypto, CurrentUserPayload, JwtConfig}
use backend_assessment_chall.Bank.{Credits, Moves, Same, bank_of, wallet_of}
use backend_assessment_chall.Bank.Shop.{Buys, create_event-Same, purchase-Buys, register-Same}
use backend_assessment_chall.Bank.Wallets.{deposit-Credits, transfer-Moves}
use backend_assessment_chall.FlashSale.{purchase}
use backend_assessment_chall.FlashSale.Stock.{IsQuiet}
use backend_assessment_chall.FlashSale.Types.{Environment, PurchaseFlashSaleDto}
use backend_assessment_chall.History.Reached.{login-db, logout-db, refresh-db}
use backend_assessment_chall.Prelude.Text.{Text}
use backend_assessment_chall.Wallet.{deposit, transfer}
use backend_assessment_chall.Wallet.Balance.{IsSound}
use backend_assessment_chall.Wallet.Types.{DepositDto, Runtime, TransferDto}
use backend_assessment_chall.World.{World}

module _ ⦃runtime : Runtime⦄ (crypto : Crypto) (config : JwtConfig) (env : Environment)
    (edge : Edge) (request : Request) (w : World) where
  -- The request's route and body ask for the step, on the wallet of the user.
  abbrev pub Asked : Text → World → Type 0
  Asked user_id v =
      ((request.route ≡ wallet_deposit)
        × ((dto : DepositDto) × (deposit_dto request.body ≡ some dto)
            × Credits (wallet_of user_id w.db) dto.amount (bank_of w.db) (bank_of v.db)))
      ⊎ ((request.route ≡ wallet_transfer)
          × ((dto : TransferDto) × (transfer_dto edge request.body ≡ some dto)
              × Moves (wallet_of user_id w.db) (wallet_of dto.to_user_id w.db) dto.amount
                  (bank_of w.db) (bank_of v.db)))
      ⊎ ((request.route ≡ sale_purchase)
          × ((dto : PurchaseFlashSaleDto) × (purchase_dto edge request.body ≡ some dto)
              × Buys user_id dto w.db (bank_of v.db)))

  -- The bank is as before, or a user whose token is valid has asked for what has happened to it.
  abbrev pub Banked : World → Type 0
  Banked v =
      Same (bank_of w.db) (bank_of v.db)
      ⊎ ((claims : Claims) × (user_id : Text) × (edge.authenticate w.clock request.authorization
            ≡ some claims)
          × (claims.sub ≡ some user_id)
          × Asked user_id v)

  with_token :
      {u : Option CurrentUserPayload} (v : World) (user : CurrentUserPayload)
      → u ≡ some user
      → Admitted edge request w.clock u
      → Same (bank_of w.db) (bank_of v.db) ⊎ Asked user.user_id v
      → Banked v
  with_token v user is_user admitted (inl same) = inl same
  with_token v user is_user (claims, other, is_other, token, sub, role, valid, allowed)
        (inr asked) =
      inr (claims, user.user_id, token, ground (arith, is_user, is_other, sub), asked)

  Handled-Banked :
      {u : Option CurrentUserPayload} {route : Route} {v : World}
      → IsQuiet env
      → IsSound w.db
      → Handled crypto config env edge request w route u v
      → request.route ≡ route
      → (is_protected route ≡ true → Admitted edge request w.clock u)
      → Banked v
  unfolding is_protected
  Handled-Banked quiet sound (register_call dto) asked admitted =
      inl (register-Same crypto config dto w)
  Handled-Banked quiet sound (login_call dto) asked admitted =
      inl (λ x. ap (λ db. bank_of db x) (login-db crypto config dto w))
  Handled-Banked quiet sound (refresh_call token) asked admitted =
      inl (λ x. ap (λ db. bank_of db x) (refresh-db crypto config token w))
  Handled-Banked quiet sound (logout_call token) asked admitted =
      inl (λ x. ap (λ db. bank_of db x) (logout-db crypto config token w))
  Handled-Banked quiet sound (event_call dto) asked admitted = inl (create_event-Same dto w)
  Handled-Banked quiet sound (deposit_call user dto is_user e) asked admitted =
      with_token (deposit user.user_id dto w).1 user is_user (admitted refl)
        (elim (deposit-Credits user.user_id dto w (deposit_dto-amount request.body dto e)) [
          | inl same ↦ inl same
          | inr credit ↦ inr (inl (asked, (dto, e, credit)))
        ])
  Handled-Banked quiet sound (transfer_call user dto is_user e) asked admitted =
      with_token (transfer user.user_id dto w).1 user is_user (admitted refl)
        (elim (transfer-Moves user.user_id dto w (transfer_dto-amount edge request.body dto e)
          sound) [ inl same ↦ inl same | inr move ↦ inr (inr (inl (asked, (dto, e, move)))) ])
  Handled-Banked quiet sound (purchase_call user dto is_user e) asked admitted =
      with_token (purchase env user.user_id dto w).1 user is_user (admitted refl)
        (elim (purchase-Buys env user.user_id dto quiet w) [
          | inl same ↦ inl same
          | inr buys ↦ inr (inr (inr (asked, (dto, e, buys))))
        ])

  -- Whoever sends a request, and whatever it is: the balances stay as they are; or the request is a
  -- deposit, and the body's amount is put into the wallet of the user whose valid token it brings; or
  -- a transfer, and the amount, which the wallet covers, is moved from there to the recipient's; or
  -- a purchase, and the price of the event's product, which the wallet covers, is taken from it. It
  -- is supposed that the ledger invariant holds before, and that no other request acts meanwhile on
  -- the data base.
  pub serve-Banked : IsQuiet env → IsSound w.db → Banked (serve crypto config env edge request w).1
  serve-Banked quiet sound = elim (serve-Stepped crypto config env edge request w) [
    | inl same ↦ inl (λ x. ap (λ v. bank_of v.db x) same)
    | inr (u, step, admitted) ↦ Handled-Banked quiet sound step refl admitted
  ]
