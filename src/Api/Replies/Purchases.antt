-- ===== src/Api/Replies/Purchases.antt =====
-- What the operations of src/modules/flash-sale/flash-sale.service.ts throw.
use backend_assessment_chall.Prelude.{[], arith, suc, true, zero, ℕ, ◌+◌, ◌∷◌, ◌≡◌}
use backend_assessment_chall.Api.Replies.{Throws, is_listed}
use backend_assessment_chall.Api.Replies.Money.{purchase_deduct-Throws}
use backend_assessment_chall.FlashSale.{
  charge_wallet, confirm_order, create_event, deduct_failed, finalize_conflict, finalize_order,
  get_event, notify, poll_for_existing_order, purchase, purchase_exhausted, purchase_new,
  purchase_reserved, settle_charge, wallet_reference_id,
}
use backend_assessment_chall.FlashSale.Queries.{
  add_job, create_order, find_event, find_existing_order, release_unit, reserve_unit,
}
use backend_assessment_chall.FlashSale.Types.{
  CreateFlashSaleEventDto, Environment, PurchaseFlashSaleDto,
}
use backend_assessment_chall.Http.{status_of_exception}
use backend_assessment_chall.Prelude.Int.{ℤ}
use backend_assessment_chall.Prelude.Text.{Text}
use backend_assessment_chall.Schema.{OrderStatus}
use backend_assessment_chall.Wallet.Types.{EntryResult}
use backend_assessment_chall.World.{
  Exception, PrismaCode, Result, World, err, known_request, ok, random_uuid,
}
use backend_assessment_chall.World.Ensures.{Outcome}

pub create_event-Throws :
    (dto : CreateFlashSaleEventDto) (w : World) → Throws (404 ∷ []) (create_event dto w)
unfolding create_event random_uuid
create_event-Throws dto w = ground arith

pub get_event-Throws : (id : Text) (w : World) → Throws (404 ∷ []) (get_event id w)
unfolding get_event find_event
get_event-Throws id w = ground arith

finalize_conflict-Throws :
    (event_id key : Text) (code : PrismaCode) (w : World)
    → Throws [] (finalize_conflict event_id key (known_request code) w)
unfolding finalize_conflict release_unit find_existing_order
finalize_conflict-Throws event_id key code w = ground arith

finalize_order-Throws :
    (id user_id event_id key : Text) (status : OrderStatus) (w : World)
    → Throws [] (finalize_order id user_id event_id key status w)
unfolding finalize_order create_order finalize_conflict release_unit find_existing_order
finalize_order-Throws id user_id event_id key status w = ground arith

deduct_failed-Throws :
    (order_id user_id : Text) (dto : PurchaseFlashSaleDto) (error : Exception) (w : World)
    → is_listed (status_of_exception error) (400 ∷ 404 ∷ []) ≡ true
    → Throws (400 ∷ 404 ∷ []) (deduct_failed order_id user_id dto error w)
unfolding deduct_failed release_unit
deduct_failed-Throws order_id user_id dto error w listed = grind (arith, finalize_order-Throws)

module _ (env : Environment) where
  confirm_order-Throws :
      (order_id user_id : Text) (dto : PurchaseFlashSaleDto) (w : World)
      → Throws (400 ∷ 404 ∷ []) (confirm_order env order_id user_id dto w)
  unfolding confirm_order notify add_job
  confirm_order-Throws order_id user_id dto w = grind (arith, finalize_order-Throws)

  settle_charge-Throws :
      (order_id user_id : Text) (dto : PurchaseFlashSaleDto) (x : Result EntryResult × World)
      → Throws (400 ∷ 404 ∷ []) x
      → Throws (400 ∷ 404 ∷ []) (settle_charge env order_id user_id dto x.0 x.1)
  unfolding settle_charge
  settle_charge-Throws order_id user_id dto (ok r, w) p =
      confirm_order-Throws order_id user_id dto w
  settle_charge-Throws order_id user_id dto (err e, w) p =
      deduct_failed-Throws order_id user_id dto e w p

  purchase_reserved-Throws :
      (user_id : Text) (dto : PurchaseFlashSaleDto) (price : ℤ) (w : World)
      → Throws (400 ∷ 404 ∷ []) (purchase_reserved env user_id dto price w)
  unfolding purchase_reserved charge_wallet random_uuid
  purchase_reserved-Throws user_id dto price w =
      settle_charge-Throws (w.uuids w.drawn) user_id dto _ (
        purchase_deduct-Throws user_id price (wallet_reference_id dto.event_id dto.idempotency_key)
          (record w { drawn = w.drawn + 1 }))

  poll-returns :
      (n delay : ℕ) (event_id key : Text) (w : World)
      → Outcome (λ e v. ⊥) (λ o v. Unit {0}) (poll_for_existing_order env n delay event_id key w)
  unfolding poll_for_existing_order find_existing_order
  poll-returns zero delay event_id key w = tt
  poll-returns (suc zero) delay event_id key w = tt
  poll-returns (suc (suc n)) delay event_id key w =
      ground (arith, poll-returns (suc n) delay event_id key (env.elapse delay w))

  purchase_exhausted-Throws :
      (dto : PurchaseFlashSaleDto) (w : World) → Throws (409 ∷ []) (purchase_exhausted env dto w)
  unfolding purchase_exhausted
  purchase_exhausted-Throws dto w =
      ground (arith, poll-returns 5 40 dto.event_id dto.idempotency_key w)

  pub purchase-Throws :
      (user_id : Text) (dto : PurchaseFlashSaleDto) (w : World)
      → Throws (400 ∷ 404 ∷ 409 ∷ []) (purchase env user_id dto w)
  unfolding purchase purchase_new find_existing_order find_event reserve_unit
  purchase-Throws user_id dto w = grind (arith, purchase_reserved-Throws, purchase_exhausted-Throws)
