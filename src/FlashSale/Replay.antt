-- ===== src/FlashSale/Replay.antt =====
-- `FlashSaleService.purchase` with an event and a key that it has had before.
use backend_assessment_chall.Prelude.{
  Bool, List, Option, Option-cases, arith, inl, inr, none, some, suc, true, zero, ℕ, ◌-◌, ◌∷◌, ◌≡◌,
  ◌⊎◌,
}
use backend_assessment_chall.FlashSale.{
  charge_wallet, confirm_order, deduct_failed, finalize_conflict, finalize_order, notify,
  poll_for_existing_order, purchase, purchase_exhausted, purchase_new, purchase_reserved,
  settle_charge, to_order_result,
}
use backend_assessment_chall.FlashSale.Queries.{
  add_job, create_order, find_event, find_existing_order, release_unit, reserve_unit, set_remaining,
}
use backend_assessment_chall.FlashSale.Types.{Environment, OrderResult, PurchaseFlashSaleDto}
use backend_assessment_chall.Prelude.Int.{ℤ}
use backend_assessment_chall.Prelude.Table.{find_by}
use backend_assessment_chall.Prelude.Text.{Text}
use backend_assessment_chall.Schema.{Order, OrderStatus, event_by_id, order_by_key, product_by_id}
use backend_assessment_chall.Wallet.Types.{EntryResult}
use backend_assessment_chall.World.{Exception, Result, World, err, ok, random_uuid}
use backend_assessment_chall.World.Ensures.{Ensures}

-- The reply to a request that finds the order.
abbrev pub as_result : Option Order → Bool → Option OrderResult
as_result none replayed = none
as_result (some order) replayed = some (to_order_result order replayed)

-- The order of the event and the key is the one of the reply.
abbrev pub Recorded : PurchaseFlashSaleDto → OrderResult → World → Type 0
Recorded dto r w =
    as_result (order_by_key (dto.event_id, dto.idempotency_key) w.db.orders) r.replayed ≡ some r

order_by_key-cons :
    (order : Order) (orders : List Order)
    → order_by_key (order.flash_sale_event_id, order.idempotency_key) (order ∷ orders) ≡ some order
unfolding order_by_key find_by
order_by_key-cons order orders = ground arith

finalize_order-Recorded :
    (id user_id event_id key : Text) (status : OrderStatus) (w : World)
    → Ensures
        (λ final w'. order_by_key (event_id, key) w'.db.orders ≡ some final.order)
        (finalize_order id user_id event_id key status w)
unfolding finalize_order finalize_conflict create_order release_unit find_existing_order
finalize_order-Recorded id user_id event_id key status w = ground (
  arith,
  order_by_key-cons
      (record {
        id = id;
        user_id = user_id;
        flash_sale_event_id = event_id;
        status = status;
        idempotency_key = key;
        created_at = w.clock;
      })
      w.db.orders,
)

module _ (env : Environment) where
  confirm_order-Recorded :
      (order_id user_id : Text) (dto : PurchaseFlashSaleDto) (w : World)
      → Ensures (Recorded dto) (confirm_order env order_id user_id dto w)
  unfolding add_job confirm_order notify to_order_result
  confirm_order-Recorded order_id user_id dto w = ground (
    arith,
    finalize_order-Recorded order_id user_id dto.event_id dto.idempotency_key OrderStatus.confirmed
        w,
  )

  deduct_failed-Recorded :
      (order_id user_id : Text) (dto : PurchaseFlashSaleDto) (error : Exception) (w : World)
      → Ensures (Recorded dto) (deduct_failed order_id user_id dto error w)
  unfolding deduct_failed to_order_result
  deduct_failed-Recorded order_id user_id dto error w = ground (
    arith,
    finalize_order-Recorded order_id user_id dto.event_id dto.idempotency_key OrderStatus.failed
        (release_unit dto.event_id w).1,
  )

  poll-Recorded :
      (n delay : ℕ) (event_id key : Text) (w : World)
      → Ensures
          (λ order w'. (order ≡ none) ⊎ (order_by_key (event_id, key) w'.db.orders ≡ order))
          (poll_for_existing_order env n delay event_id key w)
  unfolding poll_for_existing_order find_existing_order
  poll-Recorded zero delay event_id key w = ground arith
  poll-Recorded (suc zero) delay event_id key w = ground arith
  poll-Recorded (suc (suc n)) delay event_id key w =
      ground (arith, poll-Recorded (suc n) delay event_id key (env.elapse delay w))

  settle_charge-Recorded :
      (order_id user_id : Text) (dto : PurchaseFlashSaleDto) (x : Result EntryResult) (w : World)
      → Ensures (Recorded dto) (settle_charge env order_id user_id dto x w)
  unfolding settle_charge
  settle_charge-Recorded order_id user_id dto (ok r) w =
      confirm_order-Recorded order_id user_id dto w
  settle_charge-Recorded order_id user_id dto (err error) w =
      deduct_failed-Recorded order_id user_id dto error w

  purchase_reserved-Recorded :
      (user_id : Text) (dto : PurchaseFlashSaleDto) (price : ℤ) (w : World)
      → Ensures (Recorded dto) (purchase_reserved env user_id dto price w)
  unfolding purchase_reserved charge_wallet random_uuid
  purchase_reserved-Recorded user_id dto price w =
      settle_charge-Recorded (w.uuids w.drawn) user_id dto _ _

  purchase-Recorded :
      (user_id : Text) (dto : PurchaseFlashSaleDto) (w : World)
      → Ensures (Recorded dto) (purchase env user_id dto w)
  unfolding purchase purchase_new purchase_exhausted find_existing_order find_event reserve_unit
      to_order_result
  purchase-Recorded user_id dto w =
      elim (Option-cases (order_by_key (dto.event_id, dto.idempotency_key) w.db.orders)) [
        | inr (order, made) ↦ ground arith
        | inl new_key ↦ elim (Option-cases (event_by_id dto.event_id w.db.events)) [
          | inl missing ↦ ground arith
          | inr (event, found) ↦
              elim (Option-cases (product_by_id event.product_id w.db.products)) [
                | inl missing ↦ ground arith
                | inr (product, sold) ↦ ground (
                  arith,
                  poll-Recorded 5 40 dto.event_id dto.idempotency_key w,
                  purchase_reserved-Recorded user_id dto product.price
                      (set_remaining event (event.remaining - 1) w),
                )
              ]
        ]
      ]

  -- After a purchase has returned, whoever sends the event and the key in the state that it left
  -- is given the same order, marked as a replay, and nothing changes.
  pub purchase-again :
      (user_id other_id : Text) (dto dto' : PurchaseFlashSaleDto) (w w' : World) (r : OrderResult)
      → purchase env user_id dto w ≡ (ok r, w')
      → dto'.event_id ≡ dto.event_id
      → dto'.idempotency_key ≡ dto.idempotency_key
      → purchase env other_id dto' w' ≡ (ok (record r { replayed = true }), w')
  unfolding purchase find_existing_order to_order_result
  purchase-again user_id other_id dto dto' w w' r done event key =
      let known = (rw done at (purchase-Recorded user_id dto w)).holds in ground arith
