-- ===== src/FlashSale/Creation.antt =====
-- `FlashSaleService.createEvent` and `getEvent`.
use backend_assessment_chall.Prelude.{
  Bool-cases, Option-cases, arith, inl, inr, none, refl, some, ◌<◌, ◌∷◌, ◌≡◌, ◌⊎◌,
}
use backend_assessment_chall.FlashSale.{create_event, get_event, purchase, purchase_new}
use backend_assessment_chall.FlashSale.Queries.{event_not_active, find_event, find_existing_order}
use backend_assessment_chall.FlashSale.Types.{
  CreateFlashSaleEventDto, Environment, PurchaseFlashSaleDto,
}
use backend_assessment_chall.Prelude.Table.{find_by, find_by-key}
use backend_assessment_chall.Prelude.Text.{Text, text_discrete}
use backend_assessment_chall.Schema.{
  FlashSaleEvent, Product, event_by_id, order_by_key, product_by_id,
}
use backend_assessment_chall.World.{World, err, fits_integer, ok, random_uuid}
use backend_assessment_chall.World.Ensures.{Outcome, Outcome-ok}

-- The row that `createEvent` adds.
abbrev pub new_event : CreateFlashSaleEventDto → World → FlashSaleEvent
new_event dto w = record {
  id = w.uuids w.drawn;
  product_id = dto.product_id;
  total_stock = dto.total_stock;
  remaining = dto.total_stock;
  starts_at = dto.starts_at;
  ends_at = dto.ends_at;
  created_at = w.clock;
}

-- The event was added, and nothing else of the data base has changed.
abbrev pub Created : CreateFlashSaleEventDto → World → FlashSaleEvent → World → Type 0
Created dto w event w' =
    (event ≡ new_event dto w)
    × (w'.db ≡ record (w.db) { events = new_event dto w ∷ w.db.events })
    × (w'.clock ≡ w.clock)
    × ((product : Product) × (product_by_id dto.product_id w.db.products ≡ some product))

pub create_event-creates :
    (dto : CreateFlashSaleEventDto) (w : World)
    → Outcome (λ e w'. w'.db ≡ w.db) (Created dto w) (create_event dto w)
unfolding create_event random_uuid
create_event-creates dto w = elim (Option-cases (product_by_id dto.product_id w.db.products)) [
  | inl missing ↦ ground arith
  | inr (product, found) ↦ elim (Option-cases (event_by_id (w.uuids w.drawn) w.db.events)) [
    | inr (event, taken) ↦ elim (Bool-cases (fits_integer dto.total_stock)) [
      | inl fits ↦ ground arith
      | inr large ↦ ground arith
    ]
    | inl new_id ↦ elim (Bool-cases (fits_integer dto.total_stock)) [
      | inr large ↦ ground arith
      | inl fits ↦
          Outcome-ok _ (Created dto w) (create_event dto w) (new_event dto w) (ground arith)
            (refl, ground arith, ground arith, (product, found))
    ]
  ]
]

-- An event that was created is shown by `getEvent` as it was asked for, all its stock remaining,
-- with its product.
pub get_event-create_event :
    (dto : CreateFlashSaleEventDto) (w w' : World) (event : FlashSaleEvent)
    → create_event dto w ≡ (ok event, w')
    → (product : Product) × (get_event event.id w'
        ≡ (ok (record { event = event; product = product }), w'))
      × (product.id ≡ dto.product_id)
      × (event.remaining ≡ dto.total_stock)
      × (event.starts_at ≡ dto.starts_at)
      × (event.ends_at ≡ dto.ends_at)
unfolding get_event find_event event_by_id find_by product_by_id
get_event-create_event dto w w' event done =
    let (same, db, clock, sold) = rw done at (create_event-creates dto w) in
    let (product, found) = sold in
    (
      product,
      ground arith,
      find_by-key text_discrete (λ (p : Product). p.id) dto.product_id w.db.products product found,
      ground arith,
      ground arith,
      ground arith,
    )

-- An event cannot be bought from before it starts, nor after it ends: the purchase is refused with
-- no change, unless the key has an order already.
pub purchase-inactive :
    (env : Environment) (user_id : Text) (dto : PurchaseFlashSaleDto) (w : World)
    (event : FlashSaleEvent) (product : Product)
    → order_by_key (dto.event_id, dto.idempotency_key) w.db.orders ≡ none
    → event_by_id dto.event_id w.db.events ≡ some event
    → product_by_id event.product_id w.db.products ≡ some product
    → (w.clock < event.starts_at) ⊎ (event.ends_at < w.clock)
    → purchase env user_id dto w ≡ (err event_not_active, w)
unfolding purchase purchase_new find_event find_existing_order
purchase-inactive env user_id dto w event product new_key found sold (inl early) = ground arith
purchase-inactive env user_id dto w event product new_key found sold (inr late) = ground arith
