-- ===== src/FlashSale.antt =====
-- src/modules/flash-sale/flash-sale.service.ts: the methods of `FlashSaleService`. A method runs
-- alone but for the pauses of its polling loop, in which the environment acts.
pub mod Types
pub mod Queries
pub mod Tails
pub mod Creation
pub mod Stock
pub mod Money
pub mod Pays
pub mod Replay
pub mod Interleaving
use backend_assessment_chall.Prelude.{
  Bool, Option, false, if◌then◌else◌, is_some, ltb, none, not, some, suc, true, zero, ℕ, ◌&&◌, ◌++◌,
  ◌||◌, ◌∷◌,
}
use backend_assessment_chall.FlashSale.Queries.{
  add_job, create_order, event_not_active, event_not_found, find_event, find_existing_order,
  product_not_found, release_unit, reserve_unit, stock_exhausted,
}
use backend_assessment_chall.FlashSale.Types.{
  CreateFlashSaleEventDto, Environment, EventView, Finalized, OrderResult, PurchaseFlashSaleDto,
}
use backend_assessment_chall.Prelude.Int.{ℤ}
use backend_assessment_chall.Prelude.Text.{Text, codes}
use backend_assessment_chall.Schema.{
  FlashSaleEvent, Order, OrderStatus, event_by_id, order_by_key, product_by_id,
}
use backend_assessment_chall.Wallet.{purchase_deduct}
use backend_assessment_chall.Wallet.Types.{EntryResult}
use backend_assessment_chall.World.{
  Action, Exception, Result, err, fits_integer, gets, known_request, modify_db, ok, or_throw, p2002,
  p2020, pure, random_uuid, throw, throw_if, try_catch, ◌>>=◌, ◌>>◌,
}

unfoldable pub create_event : CreateFlashSaleEventDto → Action FlashSaleEvent
create_event dto = do
  product ← or_throw (← gets (λ w. product_by_id dto.product_id w.db.products)) product_not_found
  id ← random_uuid
  now ← gets (λ w. w.clock)
  throw_if (not (fits_integer dto.total_stock)) (known_request p2020)
  same_id ← gets (λ w. event_by_id id w.db.events)
  throw_if (is_some same_id) (known_request p2002)
  let event : FlashSaleEvent = record {
    id = id;
    product_id = dto.product_id;
    total_stock = dto.total_stock;
    remaining = dto.total_stock;
    starts_at = dto.starts_at;
    ends_at = dto.ends_at;
    created_at = now;
  }
  modify_db (λ db. record db { events = event ∷ db.events })
  pure event

unfoldable pub get_event : Text → Action EventView
get_event id = do or_throw (← find_event id) event_not_found

unfoldable pub to_order_result : Order → Bool → OrderResult
to_order_result order replayed = record {
  order_id = order.id;
  event_id = order.flash_sale_event_id;
  status = order.status;
  idempotency_key = order.idempotency_key;
  created_at = order.created_at;
  replayed = replayed;
}

abbrev pub is_unique_constraint_violation : Exception → Bool
is_unique_constraint_violation (known_request p2002) = true
is_unique_constraint_violation _ = false

-- The `catch` of `finalizeOrder`.
unfoldable pub finalize_conflict : Text → Text → Exception → Action Finalized
finalize_conflict event_id key error = do
  throw_if (not (is_unique_constraint_violation error)) error
  release_unit event_id
  existing ← or_throw (← find_existing_order event_id key) error
  pure (record { order = existing; raced = true })

-- Both callers pass `releaseUnit(eventId)` as `onConflict`.
unfoldable pub finalize_order : Text → Text → Text → Text → OrderStatus → Action Finalized
finalize_order id user_id event_id key status =
    try_catch
      (do
        now ← gets (λ w. w.clock)
        order ← create_order (record {
          id = id;
          user_id = user_id;
          flash_sale_event_id = event_id;
          status = status;
          idempotency_key = key;
          created_at = now;
        })
        pure (record { order = order; raced = false }))
      (finalize_conflict event_id key)

-- `flash-sale:${eventId}:${idempotencyKey}`
unfoldable pub wallet_reference_id : Text → Text → Text
wallet_reference_id event_id key = codes "flash-sale:" ++ (event_id ++ (codes ":" ++ key))

-- The `catch` of `purchase`, when the wallet was not charged.
unfoldable pub deduct_failed : Text → Text → PurchaseFlashSaleDto → Exception → Action OrderResult
deduct_failed order_id user_id dto error = do
  release_unit dto.event_id
  final ← finalize_order order_id user_id dto.event_id dto.idempotency_key OrderStatus.failed
  if final.raced then pure (to_order_result final.order true) else throw error

abbrev pub is_confirmed : OrderStatus → Bool
is_confirmed OrderStatus.confirmed = true
is_confirmed OrderStatus.failed = false

module _ (env : Environment) where
  open env use {elapse, queue_up}

  -- `setTimeout(resolve, ms)`
  abbrev pub sleep : ℕ → Action (Unit {0})
  sleep ms w = (ok tt, elapse ms w)

  -- The loop of `pollForExistingOrder`, by the attempts left.
  unfoldable pub poll_for_existing_order : ℕ → ℕ → Text → Text → Action (Option Order)
  poll_for_existing_order zero delay event_id key w = (ok none, w)
  poll_for_existing_order (suc zero) delay event_id key w = find_existing_order event_id key w
  poll_for_existing_order (suc (suc n)) delay event_id key w =
      elim (order_by_key (event_id, key) w.db.orders) [
        | some order ↦ (ok (some order), w)
        | none ↦ poll_for_existing_order (suc n) delay event_id key (elapse delay w)
      ]

  -- The order-confirmation job, whose failure is only logged.
  unfoldable pub notify : Finalized → Text → Action (Unit {0})
  notify final user_id =
      if not final.raced && is_confirmed final.order.status
      then try_catch (add_job queue_up (record { order_id = final.order.id; user_id = user_id }))
          (λ _. pure tt)
      else pure tt

  -- The end of `purchase`, when the wallet was charged.
  unfoldable pub confirm_order : Text → Text → PurchaseFlashSaleDto → Action OrderResult
  confirm_order order_id user_id dto = do
    final ← finalize_order order_id user_id dto.event_id dto.idempotency_key OrderStatus.confirmed
    notify final user_id
    pure (to_order_result final.order final.raced)

  -- What follows the charge: the `catch` of `purchase`, or the rest of it.
  unfoldable pub settle_charge :
      Text → Text → PurchaseFlashSaleDto → Result EntryResult → Action OrderResult
  settle_charge order_id user_id dto (ok r) = confirm_order order_id user_id dto
  settle_charge order_id user_id dto (err error) = deduct_failed order_id user_id dto error

  -- `try { purchaseDeduct } catch`, and what follows.
  unfoldable pub charge_wallet : Text → Text → PurchaseFlashSaleDto → ℤ → Action OrderResult
  charge_wallet order_id user_id dto price w =
      let (charged, w') =
        purchase_deduct user_id price (wallet_reference_id dto.event_id dto.idempotency_key) w in
      settle_charge order_id user_id dto charged w'

  -- `purchase` once a unit is reserved.
  unfoldable pub purchase_reserved : Text → PurchaseFlashSaleDto → ℤ → Action OrderResult
  purchase_reserved user_id dto price = do
    order_id ← random_uuid
    charge_wallet order_id user_id dto price

  -- `purchase` when no unit could be reserved.
  unfoldable pub purchase_exhausted : PurchaseFlashSaleDto → Action OrderResult
  purchase_exhausted dto = do
    raced ← poll_for_existing_order 5 40 dto.event_id dto.idempotency_key
    order ← or_throw raced stock_exhausted
    pure (to_order_result order true)

  -- `purchase` when there is no order with the key yet.
  unfoldable pub purchase_new : Text → PurchaseFlashSaleDto → Action OrderResult
  purchase_new user_id dto = do
    view ← or_throw (← find_event dto.event_id) event_not_found
    now ← gets (λ w. w.clock)
    throw_if (ltb now view.event.starts_at || ltb view.event.ends_at now) event_not_active
    reserved ← reserve_unit dto.event_id
    if reserved then purchase_reserved user_id dto view.product.price else purchase_exhausted dto

  unfoldable pub purchase : Text → PurchaseFlashSaleDto → Action OrderResult
  purchase user_id dto = do
    existing ← find_existing_order dto.event_id dto.idempotency_key
    elim existing [
      | some order ↦ pure (to_order_result order true)
      | none ↦ purchase_new user_id dto
    ]
