-- ===== src/Tests/InterleavingCalls.antt =====
-- One request meets an order with its key: it reserves a unit, is refused by the wallet, gives the
-- unit back, loses the race for the order, and gives the unit back again.
use backend_assessment_chall.Prelude.{refl, ℕ_discrete, ◌+◌, ◌≡◌, ◌≤◌}
use backend_assessment_chall.FlashSale.Interleaving.{
  Sale, SaleReach, at_rest, charge_fails, gives_back, goes_on, loses_after_release, releases_again,
  reserves, rests,
}
use backend_assessment_chall.FlashSale.Interleaving.Oversell.{SaleReach-units}
use backend_assessment_chall.FlashSale.Queries.{create_order, release_unit, reserve_unit}
use backend_assessment_chall.FlashSale.Stock.{confirmed_units, remaining_units, units}
use backend_assessment_chall.FlashSale.Tails.{new_order, with_order}
use backend_assessment_chall.Prelude.Table.{find_by, update_by}
use backend_assessment_chall.Prelude.Text.{Text, codes, text_discrete}
use backend_assessment_chall.Schema.{
  FlashSaleEvent, Order, OrderStatus, event_by_id, order_by_id, order_by_key, order_key_discrete,
  replace_event,
}
use backend_assessment_chall.Tests.Data.{ann, sale, shop}
use backend_assessment_chall.World.{World, fits_integer}

abbrev event_id : Text
event_id = codes "e1"

-- The order that another request with the key has written, and the one that this request tries.
abbrev first_order : Order
first_order =
    new_order (codes "o9") ann (record { event_id = event_id; idempotency_key = codes "k1" })
      OrderStatus.failed 90

abbrev late_order : Order
late_order = record first_order { id = codes "o8" }

abbrev busy : World
busy = with_order first_order shop

abbrev two_left : FlashSaleEvent
two_left = record sale { remaining = 2 }

abbrev one_left : FlashSaleEvent
one_left = record sale { remaining = 1 }

abbrev reserved_sale : Sale
reserved_sale = record (at_rest busy) { world = (reserve_unit event_id busy).1; holding = 1 }

abbrev refused_sale : Sale
refused_sale = record reserved_sale { holding = 0; giving_back = 1 }

abbrev released_sale : Sale
released_sale = record refused_sale {
  world = (release_unit event_id refused_sale.world).1;
  giving_back = 0;
  failing = 1;
}

abbrev lost_sale : Sale
lost_sale = record released_sale { failing = 0; lost_after_release = 1 }

abbrev doubled_sale : Sale
doubled_sale = record lost_sale {
  world = (release_unit event_id lost_sale.world).1;
  lost_after_release = 0;
  doubled = 1;
}

run : SaleReach event_id busy doubled_sale
unfolding reserve_unit release_unit create_order order_by_id order_by_key order_key_discrete
    replace_event event_by_id find_by update_by text_discrete ℕ_discrete fits_integer
run =
    goes_on
      (goes_on
        (goes_on
          (goes_on (goes_on rests (reserves (at_rest busy) refl))
            (charge_fails reserved_sale 0 refl))
          (gives_back refused_sale 0 one_left refl refl refl))
        (loses_after_release released_sale 0 late_order refl refl))
      (releases_again lost_sale 0 two_left refl refl refl)

-- Three units of two.
oversold : remaining_units event_id doubled_sale.world.db ≡ 3
unfolding reserve_unit release_unit replace_event event_by_id find_by update_by text_discrete
    ℕ_discrete fits_integer remaining_units
oversold = refl

SaleReach-units_example :
    (units event_id doubled_sale.world.db + 0 + 0 + 0 ≡ units event_id busy.db + 1)
    × (confirmed_units event_id doubled_sale.world.db.orders ≤ units event_id busy.db + 1)
SaleReach-units_example = SaleReach-units event_id busy doubled_sale run
