-- ===== src/FlashSale/Pays.antt =====
-- The order that `FlashSaleService.purchase` replies with, and what the wallet pays for it.
use backend_assessment_chall.Prelude.{false, some, true, ◌+◌, ◌-◌, ◌<◌, ◌≡◌, ◌⊎◌}
use backend_assessment_chall.FlashSale.{wallet_reference_id}
use backend_assessment_chall.FlashSale.Money.{SameMoney}
use backend_assessment_chall.FlashSale.Queries.{set_remaining}
use backend_assessment_chall.FlashSale.Types.{Environment, OrderResult, PurchaseFlashSaleDto}
use backend_assessment_chall.Prelude.Int.{ℤ}
use backend_assessment_chall.Prelude.Text.{Text}
use backend_assessment_chall.Schema.{
  FlashSaleEvent, OrderStatus, Product, Wallet, event_by_id, product_by_id,
}
use backend_assessment_chall.Wallet.Purchase.{Deducted}
use backend_assessment_chall.Wallet.Types.{EntryResult}
use backend_assessment_chall.World.{Result, World}
use backend_assessment_chall.World.Ensures.{Outcome}

-- The order is new and CONFIRMED, and the user's wallet was charged for it.
abbrev pub Paid : Text → ℤ → Text → World → OrderResult → World → Type 0
Paid user_id price reference w r w' =
    (r.replayed ≡ false)
    × (r.status ≡ OrderStatus.confirmed)
    × ((mid : World) × (charge : EntryResult) × (wallet : Wallet) × Deducted user_id price reference
          w wallet charge mid
        × SameMoney mid w')

-- The state in which the wallet is charged: a unit is set aside, and the UUID of the order drawn.
abbrev pub at_charge : FlashSaleEvent → World → World
at_charge event w = record (set_remaining event (event.remaining - 1) w) { drawn = w.drawn + 1 }

-- The wallet was charged the price of the event's product, after a unit was set aside.
abbrev pub Bought : Text → PurchaseFlashSaleDto → World → OrderResult → World → Type 0
Bought user_id dto w r w' =
    (event : FlashSaleEvent) × (product : Product) × (event_by_id dto.event_id w.db.events
      ≡ some event)
    × (product_by_id event.product_id w.db.products ≡ some product)
    × (0 < event.remaining)
    × Paid user_id product.price (wallet_reference_id dto.event_id dto.idempotency_key)
        (at_charge event w) r w'

-- A replay moves no money.
abbrev pub Replayed : World → OrderResult → World → Type 0
Replayed w r w' = (r.replayed ≡ true) × SameMoney w w'

module _ (env : Environment) (user_id : Text) (dto : PurchaseFlashSaleDto) (w : World) where
  abbrev Pays : Result OrderResult × World → Type 0
  Pays x = Outcome (λ e w'. SameMoney w w') (λ r w'. Replayed w r w' ⊎ Bought user_id dto w r w') x
