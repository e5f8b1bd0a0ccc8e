-- ===== src/FlashSale/Money.antt =====
-- What `FlashSaleService.purchase` does to the wallets and the ledger.
use backend_assessment_chall.Prelude.{
  Option-cases, arith, inl, inr, none, refl, some, subst, suc, sym, zero, ℕ, ◌+◌, ◌-◌, ◌≡◌, ◌⊎◌,
}
use backend_assessment_chall.FlashSale.{
  charge_wallet, confirm_order, deduct_failed, finalize_conflict, finalize_order, notify,
  poll_for_existing_order, purchase, purchase_exhausted, purchase_new, purchase_reserved,
  settle_charge, wallet_reference_id,
}
use backend_assessment_chall.FlashSale.Queries.{
  add_job, create_order, find_event, find_existing_order, release_unit, reserve_unit, set_remaining,
}
use backend_assessment_chall.FlashSale.Types.{Environment, PurchaseFlashSaleDto}
use backend_assessment_chall.Prelude.Int.{ℤ}
use backend_assessment_chall.Prelude.Text.{Text}
use backend_assessment_chall.Schema.{
  Database, FlashSaleEvent, OrderStatus, Product, event_by_id, order_by_key, product_by_id,
}
use backend_assessment_chall.Wallet.{purchase_deduct}
use backend_assessment_chall.Wallet.Balance.{IsSound, wallet_balance}
use backend_assessment_chall.Wallet.Purchase.{purchase_deduct-IsSound}
use backend_assessment_chall.Wallet.Types.{EntryResult}
use backend_assessment_chall.World.{Exception, Result, World, err, ok, random_uuid}

-- The wallets and the ledger are the same.
pub record SameMoney (before after : World) : Type 0 where
  pub wallets : after.db.wallets ≡ before.db.wallets
  pub entries : after.db.entries ≡ before.db.entries

SameMoney-trans : {u v w : World} → SameMoney u v → SameMoney v w → SameMoney u w
SameMoney-trans p q = ground arith

pub SameMoney-IsSound : {v w : World} → SameMoney v w → IsSound v.db → IsSound w.db
unfolding wallet_balance
SameMoney-IsSound {v} {w} same sound = record {
  balanced = λ id. rw (same.wallets, same.entries) (sound.balanced id);
  nonneg = λ id. rw same.wallets (sound.nonneg id);
  distinct = rw same.wallets sound.distinct;
}

finalize_order-SameMoney :
    (id user_id event_id key : Text) (status : OrderStatus) (w : World)
    → SameMoney w (finalize_order id user_id event_id key status w).1
unfolding finalize_order finalize_conflict create_order release_unit find_existing_order
finalize_order-SameMoney id user_id event_id key status w = ground arith

release_unit-SameMoney : (id : Text) (w : World) → SameMoney w (release_unit id w).1
unfolding release_unit
release_unit-SameMoney id w = ground arith

reserve_unit-SameMoney : (id : Text) (w : World) → SameMoney w (reserve_unit id w).1
unfolding reserve_unit
reserve_unit-SameMoney id w = ground arith

deduct_failed-SameMoney :
    (order_id user_id : Text) (dto : PurchaseFlashSaleDto) (error : Exception) (w : World)
    → SameMoney w (deduct_failed order_id user_id dto error w).1
unfolding deduct_failed
deduct_failed-SameMoney order_id user_id dto error w = ground (
  arith,
  release_unit-SameMoney dto.event_id w,
  finalize_order-SameMoney order_id user_id dto.event_id dto.idempotency_key OrderStatus.failed
      (release_unit dto.event_id w).1,
)

module _ (env : Environment) where
  confirm_order-SameMoney :
      (order_id user_id : Text) (dto : PurchaseFlashSaleDto) (w : World)
      → SameMoney w (confirm_order env order_id user_id dto w).1
  unfolding confirm_order notify add_job
  confirm_order-SameMoney order_id user_id dto w = ground (
    arith,
    finalize_order-SameMoney order_id user_id dto.event_id dto.idempotency_key OrderStatus.confirmed
        w,
  )

  pub settle_charge-SameMoney :
      (order_id user_id : Text) (dto : PurchaseFlashSaleDto) (x : Result EntryResult) (w : World)
      → SameMoney w (settle_charge env order_id user_id dto x w).1
  unfolding settle_charge
  settle_charge-SameMoney order_id user_id dto (ok r) w =
      confirm_order-SameMoney order_id user_id dto w
  settle_charge-SameMoney order_id user_id dto (err error) w =
      deduct_failed-SameMoney order_id user_id dto error w

  poll_step :
      (n delay : ℕ) (event_id key : Text) (w : World)
      → ((poll_for_existing_order env (suc (suc n)) delay event_id key w).1 ≡ w)
        ⊎ ((poll_for_existing_order env (suc (suc n)) delay event_id key w).1
            ≡ (poll_for_existing_order env (suc n) delay event_id key (env.elapse delay w)).1)
  unfolding poll_for_existing_order
  poll_step n delay event_id key w = ground arith

  purchase_found :
      (user_id : Text) (dto : PurchaseFlashSaleDto) (w : World) (event : FlashSaleEvent)
      (product : Product)
      → order_by_key (dto.event_id, dto.idempotency_key) w.db.orders ≡ none
      → event_by_id dto.event_id w.db.events ≡ some event
      → product_by_id event.product_id w.db.products ≡ some product
      → ((purchase env user_id dto w).1 ≡ w)
        ⊎ (((purchase env user_id dto w).1
              ≡ (poll_for_existing_order env 5 40 dto.event_id dto.idempotency_key w).1)
            ⊎ ((purchase env user_id dto w).1
                ≡ (purchase_reserved env user_id dto product.price
                    (set_remaining event (event.remaining - 1) w)).1))
  unfolding purchase purchase_new purchase_exhausted find_existing_order find_event reserve_unit
  purchase_found user_id dto w event product new_key found sold = ground arith

  -- The state after a purchase is the one before it, the one after polling, or the one after the
  -- charge of a reserved unit.
  pub purchase_writes :
      (user_id : Text) (dto : PurchaseFlashSaleDto) (w : World)
      → ((purchase env user_id dto w).1 ≡ w)
        ⊎ (((purchase env user_id dto w).1
              ≡ (poll_for_existing_order env 5 40 dto.event_id dto.idempotency_key w).1)
            ⊎ ((event : FlashSaleEvent) × (product : Product) × (event_by_id dto.event_id
                    w.db.events
                  ≡ some event)
                × (product_by_id event.product_id w.db.products ≡ some product)
                × ((purchase env user_id dto w).1
                    ≡ (purchase_reserved env user_id dto product.price
                        (set_remaining event (event.remaining - 1) w)).1)))
  unfolding purchase purchase_new find_existing_order find_event
  purchase_writes user_id dto w =
      elim (Option-cases (order_by_key (dto.event_id, dto.idempotency_key) w.db.orders)) [
        | inr (order, made) ↦ inl (ground arith)
        | inl new_key ↦ elim (Option-cases (event_by_id dto.event_id w.db.events)) [
          | inl missing ↦ inl (ground arith)
          | inr (event, found) ↦
              elim (Option-cases (product_by_id event.product_id w.db.products)) [
                | inl missing ↦ inl (ground arith)
                | inr (product, sold) ↦
                    elim (purchase_found user_id dto w event product new_key found sold) [
                      | inl same ↦ inl same
                      | inr (inl polled) ↦ inr (inl polled)
                      | inr (inr charged) ↦ inr (inr (event, product, found, sold, charged))
                    ]
              ]
        ]
      ]

  -- What depends on the wallets and the ledger alone, and a deduction and the other requests keep.
  module _ (P : Database → Type 0) (money : (v w : World) → SameMoney v w → P v.db → P w.db)
      (deducts : (user_id : Text) (amount : ℤ) (reference : Text) (w : World)
        → P w.db
        → P (purchase_deduct user_id amount reference w).1.db)
      (others : (ms : ℕ) (w : World) → P w.db → P (env.elapse ms w).db) where
    reserved_keeps :
        (user_id : Text) (dto : PurchaseFlashSaleDto) (price : ℤ) (w : World)
        → P w.db
        → P (purchase_reserved env user_id dto price w).1.db
    unfolding purchase_reserved charge_wallet random_uuid
    reserved_keeps user_id dto price w p =
        let reference : Text = wallet_reference_id dto.event_id dto.idempotency_key in
        let v : World = record w { drawn = w.drawn + 1 } in
        money (purchase_deduct user_id price reference v).1 _
          (settle_charge-SameMoney (w.uuids w.drawn) user_id dto _ _)
          (deducts user_id price reference v p)

    poll_keeps :
        (n delay : ℕ) (event_id key : Text) (w : World)
        → P w.db
        → P (poll_for_existing_order env n delay event_id key w).1.db
    unfolding poll_for_existing_order find_existing_order
    poll_keeps zero delay event_id key w p = p
    poll_keeps (suc zero) delay event_id key w p = p
    poll_keeps (suc (suc n)) delay event_id key w p =
        let later = poll_keeps (suc n) delay event_id key (env.elapse delay w) (others delay w p) in
        elim (poll_step n delay event_id key w) [
          | inl same ↦ subst (λ (v : World). P v.db) (sym same) p
          | inr slept ↦ subst (λ (v : World). P v.db) (sym slept) later
        ]

    pub purchase_keeps :
        (user_id : Text) (dto : PurchaseFlashSaleDto) (w : World)
        → P w.db
        → P (purchase env user_id dto w).1.db
    purchase_keeps user_id dto w p = elim (purchase_writes user_id dto w) [
      | inl same ↦ subst (λ (v : World). P v.db) (sym same) p
      | inr (inl polled) ↦
          subst (λ (v : World). P v.db) (sym polled)
            (poll_keeps 5 40 dto.event_id dto.idempotency_key w p)
      | inr (inr (event, product, found, sold, charged)) ↦
          subst (λ (v : World). P v.db) (sym charged)
            (reserved_keeps user_id dto product.price (set_remaining event (event.remaining - 1) w)
              (money w (set_remaining event (event.remaining - 1) w)
                (record { wallets = refl; entries = refl }) p))
    ]

  -- A purchase keeps the ledger invariant, however it ends, if what other requests do while it
  -- sleeps keeps it.
  pub purchase-IsSound :
      (others : (ms : ℕ) (w : World) → IsSound w.db → IsSound (env.elapse ms w).db) (user_id : Text)
      (dto : PurchaseFlashSaleDto) (w : World)
      → IsSound w.db
      → IsSound (purchase env user_id dto w).1.db
  purchase-IsSound others =
      purchase_keeps IsSound (λ v w same. SameMoney-IsSound {v = v} {w = w} same)
        purchase_deduct-IsSound others
