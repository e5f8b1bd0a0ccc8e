-- ===== src/FlashSale/Types.antt =====
-- The requests and replies of src/modules/flash-sale/flash-sale.service.ts, and what the service
-- meets outside: time that passes while it sleeps, and a queue that may be out of reach. A date is
-- the number of milliseconds that the validated text stands for.
use backend_assessment_chall.Prelude.{Bool, ℕ}
use backend_assessment_chall.Prelude.Text.{Text}
use backend_assessment_chall.Schema.{FlashSaleEvent, Order, OrderStatus, Product}
use backend_assessment_chall.World.{World}

-- modules/flash-sale/dto/create-flash-sale-event.dto.ts and purchase-flash-sale.dto.ts.
pub record CreateFlashSaleEventDto : Type 0 where
  pub product_id : Text
  pub total_stock : ℕ
  pub starts_at : ℕ
  pub ends_at : ℕ

pub record PurchaseFlashSaleDto : Type 0 where
  pub event_id : Text
  pub idempotency_key : Text

-- What `toOrderResult` makes of an order.
pub record OrderResult : Type 0 where
  pub order_id : Text
  pub event_id : Text
  pub status : OrderStatus
  pub idempotency_key : Text
  pub created_at : ℕ
  pub replayed : Bool

-- What `getEvent` returns: an event with its product.
pub record EventView : Type 0 where
  pub event : FlashSaleEvent
  pub product : Product

-- What `finalizeOrder` returns.
pub record Finalized : Type 0 where
  pub order : Order
  pub raced : Bool

-- What other requests do while this one sleeps for some milliseconds, and whether the queue takes
-- a job.
pub record Environment : Type 0 where
  pub elapse : ℕ → World → World
  pub queue_up : World → Bool
