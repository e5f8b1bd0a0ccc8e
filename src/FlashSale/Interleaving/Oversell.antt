-- ===== src/FlashSale/Interleaving/Oversell.antt =====
-- How many units are sold, however the statements of concurrent purchases interleave.
use backend_assessment_chall.Prelude.{
  Option-cases, arith, inl, inr, some, true, ℕ, ◌+◌, ◌-◌, ◌≡◌, ◌≤◌,
}
use backend_assessment_chall.FlashSale.Interleaving.{
  Sale, SaleReach, SaleStep, charge_fails, confirms_order, elsewhere, fails_order, gives_back,
  goes_on, loses, loses_after_release, releases, releases_again, reserves, rests,
}
use backend_assessment_chall.FlashSale.Queries.{create_order, release_unit, reserve_unit}
use backend_assessment_chall.FlashSale.Stock.{confirmed_units, confirms, remaining_units, units}
use backend_assessment_chall.FlashSale.Tails.{event_by_id-id, event_by_id-replace}
use backend_assessment_chall.Prelude.Text.{Text}
use backend_assessment_chall.Schema.{FlashSaleEvent, Order, OrderStatus, event_by_id}
use backend_assessment_chall.World.{World, ok}

reserve_unit-units :
    (id : Text) (w : World)
    → (reserve_unit id w).0 ≡ ok true
    → units id (reserve_unit id w).1.db + 1 ≡ units id w.db
unfolding reserve_unit remaining_units
reserve_unit-units id w done = elim (Option-cases (event_by_id id w.db.events)) [
  | inl missing ↦ ground arith
  | inr (event, found) ↦ ground (
    arith,
    event_by_id-id id w.db.events event found,
    event_by_id-replace w.db.events event (record event { remaining = event.remaining - 1 }) id,
  )
]

release_unit-units :
    (id : Text) (w : World) (event : FlashSaleEvent)
    → event_by_id id w.db.events ≡ some event
    → (release_unit id w).0 ≡ ok tt
    → units id (release_unit id w).1.db ≡ units id w.db + 1
unfolding release_unit remaining_units
release_unit-units id w event found done = ground (
  arith,
  event_by_id-id id w.db.events event found,
  event_by_id-replace w.db.events event (record event { remaining = event.remaining + 1 }) id,
)

create_order-units :
    (id : Text) (order : Order) (w : World)
    → (create_order order w).0 ≡ ok order
    → units id (create_order order w).1.db ≡ units id w.db + confirms id order
unfolding create_order remaining_units confirmed_units
create_order-units id order w done = ground arith

confirms-confirmed :
    (id : Text) (order : Order)
    → order.flash_sale_event_id ≡ id
    → order.status ≡ OrderStatus.confirmed
    → confirms id order ≡ 1
unfolding confirms
confirms-confirmed id order own good = ground arith

confirms-failed :
    (id : Text) (order : Order) → order.status ≡ OrderStatus.failed → confirms id order ≡ 0
unfolding confirms
confirms-failed id order bad = ground arith

abbrev held : Sale → ℕ
held s = s.holding + s.giving_back + s.lost

abbrev Accounted : Text → World → Sale → Type 0
Accounted id w s = units id s.world.db + held s ≡ units id w.db + s.doubled

SaleStep-Accounted :
    (id : Text) (w : World) {s t : Sale} → SaleStep id s t → Accounted id w s → Accounted id w t
unfolding remaining_units
SaleStep-Accounted id w (elsewhere s v events orders) h = rw (events, orders) h
SaleStep-Accounted id w (reserves s done) h = omega (arith, reserve_unit-units id s.world done)
SaleStep-Accounted id w (charge_fails s n some_hold) h = omega arith
SaleStep-Accounted id w (gives_back s n event some_give found done) h =
    omega (arith, release_unit-units id s.world event found done)
SaleStep-Accounted id w (confirms_order s n order some_hold own good done) h =
    omega (arith, create_order-units id order s.world done, confirms-confirmed id order own good)
SaleStep-Accounted id w (fails_order s n order some_fail bad done) h =
    omega (arith, create_order-units id order s.world done, confirms-failed id order bad)
SaleStep-Accounted id w (loses s n order some_hold taken) h = omega arith
SaleStep-Accounted id w (loses_after_release s n order some_fail taken) h = h
SaleStep-Accounted id w (releases s n event some_lost found done) h =
    omega (arith, release_unit-units id s.world event found done)
SaleStep-Accounted id w (releases_again s n event some_lost found done) h =
    omega (arith, release_unit-units id s.world event found done)

SaleReach-Accounted : (id : Text) (w : World) {s : Sale} → SaleReach id w s → Accounted id w s
SaleReach-Accounted id w rests = omega arith
SaleReach-Accounted id w (goes_on reached step) =
    SaleStep-Accounted id w step (SaleReach-Accounted id w reached)

-- However the statements of purchases of an event interleave, from a state with none begun: the
-- units for sale, the confirmed orders and the units that requests hold add up to what there was,
-- plus the units that were given back twice, each by a request that lost the race for the order
-- after a failed charge. So no more orders are confirmed than there were units and such requests.
pub SaleReach-units :
    (id : Text) (w : World) (s : Sale)
    → SaleReach id w s
    → (units id s.world.db + s.holding + s.giving_back + s.lost ≡ units id w.db + s.doubled)
      × (confirmed_units id s.world.db.orders ≤ units id w.db + s.doubled)
SaleReach-units id w s reached = (
  omega (arith, SaleReach-Accounted id w reached),
  omega (arith, SaleReach-Accounted id w reached),
)
