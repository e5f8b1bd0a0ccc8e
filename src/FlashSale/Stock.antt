-- ===== src/FlashSale/Stock.antt =====
-- The stock of an event over `FlashSaleService.purchase`: its remaining units and its confirmed
-- orders.
use backend_assessment_chall.Prelude.{
  List, Option, Option-cases, [], arith, if◌then◌else◌, inl, inr, ite, none, refl, some, suc, true,
  zero, ℕ, ◌+◌, ◌-◌, ◌<◌, ◌∙◌, ◌∷◌, ◌≡◌,
}
use backend_assessment_chall.FlashSale.{
  charge_wallet, is_confirmed, poll_for_existing_order, purchase, purchase_exhausted, purchase_new,
  purchase_reserved, settle_charge, wallet_reference_id,
}
use backend_assessment_chall.FlashSale.Queries.{
  find_event, find_existing_order, reserve_unit, set_remaining,
}
use backend_assessment_chall.FlashSale.Tails.{
  confirm_order_alone, deduct_failed_alone, event_by_id-id, event_by_id-replace,
}
use backend_assessment_chall.FlashSale.Types.{Environment, PurchaseFlashSaleDto}
use backend_assessment_chall.Prelude.Int.{ℤ}
use backend_assessment_chall.Prelude.Text.{Text, text_discrete}
use backend_assessment_chall.Schema.{
  Database, FlashSaleEvent, Order, event_by_id, order_by_id, order_by_key, product_by_id,
}
use backend_assessment_chall.Wallet.{purchase_deduct}
use backend_assessment_chall.Wallet.Frame.{SameShop, purchase_deduct-SameShop}
use backend_assessment_chall.Wallet.Types.{EntryResult}
use backend_assessment_chall.World.{Result, World, err, fits_integer, ok, random_uuid}

abbrev pub remaining_in : Option FlashSaleEvent → ℕ
remaining_in none = 0
remaining_in (some event) = event.remaining

unfoldable pub remaining_units : Text → Database → ℕ
remaining_units id db = remaining_in (event_by_id id db.events)

unfoldable pub confirms : Text → Order → ℕ
confirms id order =
    ite (text_discrete order.flash_sale_event_id id) (if is_confirmed order.status then 1 else 0) 0

unfoldable pub confirmed_units : Text → List Order → ℕ
confirmed_units id [] = 0
confirmed_units id (order ∷ orders) = confirms id order + confirmed_units id orders

-- The units of an event that are for sale or sold.
abbrev pub units : Text → Database → ℕ
units id db = remaining_units id db + confirmed_units id db.orders

-- Sleeping changes nothing in the data base.
abbrev pub IsQuiet : Environment → Type 0
IsQuiet env = (ms : ℕ) (w : World) → (env.elapse ms w).db ≡ w.db

module _ (env : Environment) (quiet : IsQuiet env) where
  pub poll-quiet :
      (n delay : ℕ) (event_id key : Text) (w : World)
      → (poll_for_existing_order env n delay event_id key w).1.db ≡ w.db
  unfolding poll_for_existing_order find_existing_order
  poll-quiet zero delay event_id key w = refl
  poll-quiet (suc zero) delay event_id key w = refl
  poll-quiet (suc (suc n)) delay event_id key w =
      ground (arith, poll-quiet (suc n) delay event_id key (env.elapse delay w), quiet delay w)

module _ (env : Environment) (order_id user_id : Text) (dto : PurchaseFlashSaleDto) (price : ℤ)
    (w : World) (event : FlashSaleEvent) (found : event_by_id dto.event_id w.db.events ≡ some event)
    (fits : fits_integer (event.remaining + 1) ≡ true)
    (new_id : order_by_id order_id w.db.orders ≡ none)
    (new_key : order_by_key (dto.event_id, dto.idempotency_key) w.db.orders ≡ none) where
  settle_charge-units :
      (x : Result EntryResult) (w' : World) (id : Text)
      → SameShop w w'
      → units id (settle_charge env order_id user_id dto x w').1.db
        ≡ units id w.db + ite (text_discrete dto.event_id id) 1 0
  unfolding settle_charge remaining_units confirmed_units confirms
  settle_charge-units (ok r) w' id same = ground (
    arith,
    confirm_order_alone order_id user_id dto w' event (rw same.events found) fits env
        (rw same.orders new_id) (rw same.orders new_key),
    same.events,
    same.orders,
  )
  settle_charge-units (err error) w' id same = ground (
    arith,
    deduct_failed_alone order_id user_id dto w' event (rw same.events found) fits error
        (rw same.orders new_id) (rw same.orders new_key),
    same.events,
    same.orders,
    event_by_id-replace w.db.events event (record event { remaining = event.remaining + 1 }) id,
    event_by_id-id dto.event_id w.db.events event found,
  )

pub restore : (n : ℕ) → 0 < n → n - 1 + 1 ≡ n
restore n h = omega arith

-- The data base with one unit of the event less.
abbrev pub reserved : FlashSaleEvent → World → World
reserved event w = set_remaining event (event.remaining - 1) w

module _ (env : Environment) (user_id : Text) (dto : PurchaseFlashSaleDto) (price : ℤ) (w : World)
    (event : FlashSaleEvent) (found : event_by_id dto.event_id w.db.events ≡ some event)
    (stock : 0 < event.remaining) (fits : fits_integer event.remaining ≡ true)
    (new_id : order_by_id (w.uuids w.drawn) w.db.orders ≡ none)
    (new_key : order_by_key (dto.event_id, dto.idempotency_key) w.db.orders ≡ none) where
  pub reserved-found :
      event_by_id dto.event_id (reserved event w).db.events
      ≡ some (record event { remaining = event.remaining - 1 })
  reserved-found = ground (
    arith,
    event_by_id-id dto.event_id w.db.events event found,
    event_by_id-replace w.db.events event (record event { remaining = event.remaining - 1 })
        dto.event_id,
  )

  reserved-units :
      (id : Text)
      → units id (reserved event w).db + ite (text_discrete dto.event_id id) 1 0 ≡ units id w.db
  unfolding remaining_units
  reserved-units id = ground (
    arith,
    event_by_id-id dto.event_id w.db.events event found,
    event_by_id-replace w.db.events event (record event { remaining = event.remaining - 1 }) id,
  )

  purchase_reserved-units :
      (id : Text)
      → units id (purchase_reserved env user_id dto price (reserved event w)).1.db ≡ units id w.db
  unfolding purchase_reserved charge_wallet random_uuid
  purchase_reserved-units id =
      let w' : World = record (reserved event w) { drawn = w.drawn + 1 } in
      let charged =
        purchase_deduct user_id price (wallet_reference_id dto.event_id dto.idempotency_key) w' in
      settle_charge-units env (w.uuids w.drawn) user_id dto price w'
        (record event { remaining = event.remaining - 1 }) reserved-found
        (rw (restore event.remaining stock) fits) new_id new_key charged.0 charged.1 id
        (purchase_deduct-SameShop user_id price
          (wallet_reference_id dto.event_id dto.idempotency_key) w')
      ∙ reserved-units id

-- Stock is conserved by a purchase, on every branch: sold out, not active, refused by the wallet,
-- replayed or confirmed. It is supposed that no other request acts meanwhile on the data base, that
-- the UUID drawn for the order is new, and that the count of units fits its column.
pub purchase-units :
    (env : Environment) (user_id : Text) (dto : PurchaseFlashSaleDto) (w : World) (id : Text)
    → IsQuiet env
    → order_by_id (w.uuids w.drawn) w.db.orders ≡ none
    → fits_integer (remaining_units dto.event_id w.db) ≡ true
    → units id (purchase env user_id dto w).1.db ≡ units id w.db
unfolding purchase purchase_new purchase_exhausted find_existing_order find_event reserve_unit
    remaining_units
purchase-units env user_id dto w id quiet new_id fits =
    elim (Option-cases (order_by_key (dto.event_id, dto.idempotency_key) w.db.orders)) [
      | inr (order, made) ↦ ground arith
      | inl new_key ↦ elim (Option-cases (event_by_id dto.event_id w.db.events)) [
        | inl missing ↦ ground arith
        | inr (event, found) ↦ elim (Option-cases (product_by_id event.product_id w.db.products)) [
          | inl missing ↦ ground arith
          | inr (product, sold) ↦ ground (
            arith,
            poll-quiet env quiet 5 40 dto.event_id dto.idempotency_key w,
            λ (stock : 0 < event.remaining).
                purchase_reserved-units env user_id dto product.price w event found stock
                  (rw found at fits) new_id new_key id,
          )
        ]
      ]
    ]
