-- ===== src/FlashSale/Tails.antt =====
-- The two ends of `FlashSaleService.purchase`, after the wallet was or was not charged, with the
-- state that each leaves: alone, and when another request has written the order first.
use backend_assessment_chall.Prelude.{
  List, [], arith, false, if◌then◌else◌, ite, none, some, true, ℕ, ◌++◌, ◌+◌, ◌∷◌, ◌≡◌,
}
use backend_assessment_chall.FlashSale.{
  confirm_order, deduct_failed, finalize_conflict, finalize_order, notify, to_order_result,
}
use backend_assessment_chall.FlashSale.Queries.{
  add_job, create_order, find_existing_order, release_unit, set_remaining,
}
use backend_assessment_chall.FlashSale.Types.{Environment, PurchaseFlashSaleDto}
use backend_assessment_chall.Prelude.Table.{
  find_by-key, find_by-update_by_ne, find_by-update_by_self,
}
use backend_assessment_chall.Prelude.Text.{Text, text_discrete}
use backend_assessment_chall.Schema.{
  FlashSaleEvent, Order, OrderStatus, event_by_id, order_by_id, order_by_key, replace_event,
}
use backend_assessment_chall.World.{Exception, World, err, fits_integer, ok}

abbrev pub new_order : Text → Text → PurchaseFlashSaleDto → OrderStatus → ℕ → Order
new_order id user_id dto status now = record {
  id = id;
  user_id = user_id;
  flash_sale_event_id = dto.event_id;
  status = status;
  idempotency_key = dto.idempotency_key;
  created_at = now;
}

abbrev pub with_order : Order → World → World
with_order order w = record w { db = record (w.db) { orders = order ∷ w.db.orders } }

pub event_by_id-id :
    (id : Text) (events : List FlashSaleEvent) (event : FlashSaleEvent)
    → event_by_id id events ≡ some event
    → event.id ≡ id
unfolding event_by_id
event_by_id-id = find_by-key text_discrete (λ e. e.id)

pub event_by_id-replace :
    (events : List FlashSaleEvent) (old new : FlashSaleEvent) (id : Text)
    → event_by_id new.id events ≡ some old
    → event_by_id id (replace_event new.id new events)
      ≡ ite (text_discrete new.id id) (some new) (event_by_id id events)
unfolding event_by_id replace_event
event_by_id-replace events old new id found = ground (
  arith,
  find_by-update_by_self text_discrete (λ e. e.id) new.id (λ _. new) events old found,
  find_by-update_by_ne text_discrete (λ e. e.id) id new.id new events,
)

module _ (order_id user_id : Text) (dto : PurchaseFlashSaleDto) (w : World) (event : FlashSaleEvent)
    (found : event_by_id dto.event_id w.db.events ≡ some event)
    (fits : fits_integer (event.remaining + 1) ≡ true) where
  -- With nobody else on the key, a failed charge gives the unit back, leaves a FAILED order, and
  -- throws the wallet's exception.
  pub deduct_failed_alone :
      (error : Exception)
      → order_by_id order_id w.db.orders ≡ none
      → order_by_key (dto.event_id, dto.idempotency_key) w.db.orders ≡ none
      → deduct_failed order_id user_id dto error w ≡ (
        err error,
        with_order
            (new_order order_id user_id dto OrderStatus.failed w.clock)
            (set_remaining event (event.remaining + 1) w),
      )
  unfolding deduct_failed finalize_order release_unit create_order
  deduct_failed_alone error new_id new_key = ground (
    arith,
    event_by_id-id dto.event_id w.db.events event found,
    event_by_id-replace w.db.events event (record event { remaining = event.remaining + 1 })
        dto.event_id,
  )

  -- When the charge has failed, and another request has written an order with the key since this
  -- one looked, two units of the event are given back, though this request had reserved one; the
  -- other order is the reply. It is supposed that the event exists and that the counts of units
  -- fit their column.
  pub deduct_failed_raced :
      (error : Exception) (other : Order)
      → order_by_key (dto.event_id, dto.idempotency_key) w.db.orders ≡ some other
      → fits_integer (event.remaining + 1 + 1) ≡ true
      → let (r, w') = deduct_failed order_id user_id dto error w in
        (r ≡ ok (to_order_result other true))
        × (event_by_id dto.event_id w'.db.events
            ≡ some (record event { remaining = event.remaining + 1 + 1 }))
        × (w'.db.orders ≡ w.db.orders)
        × (w'.db.wallets ≡ w.db.wallets)
        × (w'.db.entries ≡ w.db.entries)
  unfolding deduct_failed finalize_order finalize_conflict release_unit create_order
      find_existing_order
  deduct_failed_raced error other made fits' = ground (
    arith,
    event_by_id-id dto.event_id w.db.events event found,
    event_by_id-replace w.db.events event (record event { remaining = event.remaining + 1 })
        dto.event_id,
    event_by_id-replace
        (replace_event event.id (record event { remaining = event.remaining + 1 }) w.db.events)
        (record event { remaining = event.remaining + 1 })
        (record event { remaining = event.remaining + 1 + 1 }) dto.event_id,
  )

  module _ (env : Environment) where
    -- With nobody else on the key, a charge leaves a CONFIRMED order, whether or not the queue
    -- takes the job.
    pub confirm_order_alone :
        order_by_id order_id w.db.orders ≡ none
        → order_by_key (dto.event_id, dto.idempotency_key) w.db.orders ≡ none
        → let order = new_order order_id user_id dto OrderStatus.confirmed w.clock in
          let (r, w') = confirm_order env order_id user_id dto w in
          (r ≡ ok (to_order_result order false))
          × (w'.db ≡ (with_order order w).db)
          × (w'.queue ≡ (
              if env.queue_up (with_order order w)
              then w.queue ++ (record { order_id = order_id; user_id = user_id } ∷ [])
              else w.queue))
    unfolding confirm_order finalize_order create_order notify add_job
    confirm_order_alone new_id new_key = ground arith

    -- When the wallet was charged, and another request has written an order with the key since
    -- this one looked, the other order, whoever's it is and whatever its status, is the reply,
    -- one unit is given back, and wallets and ledger stay as they are after the charge. It is
    -- supposed that the event exists and that the count of units fits its column.
    pub confirm_order_raced :
        (other : Order)
        → order_by_key (dto.event_id, dto.idempotency_key) w.db.orders ≡ some other
        → let (r, w') = confirm_order env order_id user_id dto w in
          (r ≡ ok (to_order_result other true))
          × (event_by_id dto.event_id w'.db.events
              ≡ some (record event { remaining = event.remaining + 1 }))
          × (w'.db.orders ≡ w.db.orders)
          × (w'.db.wallets ≡ w.db.wallets)
          × (w'.db.entries ≡ w.db.entries)
          × (w'.queue ≡ w.queue)
    unfolding confirm_order finalize_order finalize_conflict release_unit create_order
        find_existing_order notify
    confirm_order_raced other made = ground (
      arith,
      event_by_id-id dto.event_id w.db.events event found,
      event_by_id-replace w.db.events event (record event { remaining = event.remaining + 1 })
          dto.event_id,
    )
