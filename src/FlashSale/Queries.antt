-- ===== src/FlashSale/Queries.antt =====
-- The reads and writes of the tables and of the queue in
-- src/modules/flash-sale/flash-sale.service.ts, with the constraints on the writes.
use backend_assessment_chall.Prelude.{
  Bool, Option, [], false, if◌then◌else◌, is_some, ltb, none, not, some, true, ℕ, ◌++◌, ◌+◌, ◌-◌,
  ◌||◌, ◌∷◌,
}
use backend_assessment_chall.FlashSale.Types.{EventView}
use backend_assessment_chall.Prelude.Text.{Text, codes}
use backend_assessment_chall.Schema.{
  Database, FlashSaleEvent, Order, Product, event_by_id, order_by_id, order_by_key, order_key,
  product_by_id, replace_event,
}
use backend_assessment_chall.World.{
  Action, Exception, HttpError, Job, World, err, fits_integer, gets, http_exception, known_request,
  modify_db, ok, p2002, p2003, p2010, plain_error, pure, throw_if, ◌>>=◌, ◌>>◌,
}

abbrev pub product_not_found : Exception
product_not_found = http_exception HttpError.not_found (codes "Product not found")

abbrev pub event_not_found : Exception
event_not_found = http_exception HttpError.not_found (codes "Flash-sale event not found")

abbrev pub event_not_active : Exception
event_not_active =
    http_exception HttpError.bad_request (codes "Flash-sale event is not currently active")

abbrev pub stock_exhausted : Exception
stock_exhausted =
    http_exception HttpError.conflict (codes "Stock is exhausted for this flash-sale event")

abbrev pub join_product : FlashSaleEvent → Option Product → Option EventView
join_product event none = none
join_product event (some product) = some (record { event = event; product = product })

abbrev pub with_product : Database → Option FlashSaleEvent → Option EventView
with_product db none = none
with_product db (some event) = join_product event (product_by_id event.product_id db.products)

-- The state with another count of units on an event.
abbrev pub set_remaining : FlashSaleEvent → ℕ → World → World
set_remaining event n w = record w {
  db = record (w.db) {
    events = replace_event event.id (record event { remaining = n }) w.db.events;
  };
}

-- `flashSaleEvent.findUnique({ where: { id }, include: { product: true } })`. The foreign key sees
-- to it that the product is there.
unfoldable pub find_event : Text → Action (Option EventView)
find_event id w = (ok (with_product w.db (event_by_id id w.db.events)), w)

-- `UPDATE "FlashSaleEvent" SET "remaining" = "remaining" - 1 WHERE "id" = … AND "remaining" > 0
-- RETURNING "remaining"`: whether there is a row.
unfoldable pub reserve_unit : Text → Action Bool
reserve_unit id w = elim (event_by_id id w.db.events) [
  | none ↦ (ok false, w)
  | some event ↦
      if ltb 0 event.remaining
      then (ok true, set_remaining event (event.remaining - 1) w)
      else (ok false, w)
]

-- `UPDATE "FlashSaleEvent" SET "remaining" = "remaining" + 1 WHERE "id" = …`
unfoldable pub release_unit : Text → Action (Unit {0})
release_unit id w = elim (event_by_id id w.db.events) [
  | none ↦ (ok tt, w)
  | some event ↦
      if fits_integer (event.remaining + 1)
      then (ok tt, set_remaining event (event.remaining + 1) w)
      else (err (known_request p2010), w)
]

-- `order.findUnique({ where: { flashSaleEventId_idempotencyKey } })`
unfoldable pub find_existing_order : Text → Text → Action (Option Order)
find_existing_order event_id key w = (ok (order_by_key (event_id, key) w.db.orders), w)

-- `order.create({ data })`
unfoldable pub create_order : Order → Action Order
create_order order = do
  same_id ← gets (λ w. order_by_id order.id w.db.orders)
  same_key ← gets (λ w. order_by_key (order_key order) w.db.orders)
  throw_if (is_some same_id || is_some same_key) (known_request p2002)
  event ← gets (λ w. event_by_id order.flash_sale_event_id w.db.events)
  throw_if (not (is_some event)) (known_request p2003)
  modify_db (λ db. record db { orders = order ∷ db.orders })
  pure order

-- `notificationsQueue.add(…)`
unfoldable pub add_job : (World → Bool) → Job → Action (Unit {0})
add_job queue_up job w =
    if queue_up w
    then (ok tt, record w { queue = w.queue ++ (job ∷ []) })
    else (err (plain_error (codes "queue")), w)
