-- ===== src/FlashSale/Interleaving.antt =====
-- Purchases of one event that run at the same time, statement by statement, in
-- src/modules/flash-sale/flash-sale.service.ts. A request is counted by how far it is: it holds a
-- unit (from `reserveUnit` to the order, charged or not); it gives the unit back after a failed
-- charge; it writes the FAILED order; it has lost the race for the order, still holding the unit, or
-- after giving it back. `doubled` counts the units that were given back twice.
pub mod Oversell
use backend_assessment_chall.Prelude.{some, suc, true, ℕ, ◌≡◌}
use backend_assessment_chall.FlashSale.Queries.{create_order, release_unit, reserve_unit}
use backend_assessment_chall.Prelude.Text.{Text}
use backend_assessment_chall.Schema.{FlashSaleEvent, Order, OrderStatus, event_by_id}
use backend_assessment_chall.World.{World, err, known_request, ok, p2002}

pub record Sale : Type 0 where
  pub world : World
  pub holding : ℕ
  pub giving_back : ℕ
  pub failing : ℕ
  pub lost : ℕ
  pub lost_after_release : ℕ
  pub doubled : ℕ

-- One statement of one request on the event `id`, or anything that leaves events and orders alone.
pub data SaleStep (id : Text) : Sale → Sale → Type 0 where
  elsewhere :
      (s : Sale) (w : World)
      → w.db.events ≡ s.world.db.events
      → w.db.orders ≡ s.world.db.orders
      → SaleStep id s (record s { world = w })
  reserves :
      (s : Sale)
      → (reserve_unit id s.world).0 ≡ ok true
      → SaleStep id s (record s { world = (reserve_unit id s.world).1; holding = suc s.holding })
  charge_fails :
      (s : Sale) (n : ℕ)
      → s.holding ≡ suc n
      → SaleStep id s (record s { holding = n; giving_back = suc s.giving_back })
  gives_back :
      (s : Sale) (n : ℕ) (event : FlashSaleEvent)
      → s.giving_back ≡ suc n
      → event_by_id id s.world.db.events ≡ some event
      → (release_unit id s.world).0 ≡ ok tt
      → SaleStep id s (record s {
        world = (release_unit id s.world).1;
        giving_back = n;
        failing = suc s.failing;
      })
  confirms_order :
      (s : Sale) (n : ℕ) (order : Order)
      → s.holding ≡ suc n
      → order.flash_sale_event_id ≡ id
      → order.status ≡ OrderStatus.confirmed
      → (create_order order s.world).0 ≡ ok order
      → SaleStep id s (record s { world = (create_order order s.world).1; holding = n })
  fails_order :
      (s : Sale) (n : ℕ) (order : Order)
      → s.failing ≡ suc n
      → order.status ≡ OrderStatus.failed
      → (create_order order s.world).0 ≡ ok order
      → SaleStep id s (record s { world = (create_order order s.world).1; failing = n })
  loses :
      (s : Sale) (n : ℕ) (order : Order)
      → s.holding ≡ suc n
      → (create_order order s.world).0 ≡ err (known_request p2002)
      → SaleStep id s (record s { holding = n; lost = suc s.lost })
  loses_after_release :
      (s : Sale) (n : ℕ) (order : Order)
      → s.failing ≡ suc n
      → (create_order order s.world).0 ≡ err (known_request p2002)
      → SaleStep id s (record s { failing = n; lost_after_release = suc s.lost_after_release })
  releases :
      (s : Sale) (n : ℕ) (event : FlashSaleEvent)
      → s.lost ≡ suc n
      → event_by_id id s.world.db.events ≡ some event
      → (release_unit id s.world).0 ≡ ok tt
      → SaleStep id s (record s { world = (release_unit id s.world).1; lost = n })
  releases_again :
      (s : Sale) (n : ℕ) (event : FlashSaleEvent)
      → s.lost_after_release ≡ suc n
      → event_by_id id s.world.db.events ≡ some event
      → (release_unit id s.world).0 ≡ ok tt
      → SaleStep id s (record s {
        world = (release_unit id s.world).1;
        lost_after_release = n;
        doubled = suc s.doubled;
      })

-- No purchase of the event has begun.
abbrev pub at_rest : World → Sale
at_rest w = record {
  world = w;
  holding = 0;
  giving_back = 0;
  failing = 0;
  lost = 0;
  lost_after_release = 0;
  doubled = 0;
}

pub data SaleReach (id : Text) (w : World) : Sale → Type 0 where
  rests : SaleReach id w (at_rest w)
  goes_on : {s t : Sale} → SaleReach id w s → SaleStep id s t → SaleReach id w t
