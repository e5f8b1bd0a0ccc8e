-- ===== src/Tests/FlashSaleCalls.antt =====
-- The flash sale's theorems at the sample shop.
use backend_assessment_chall.Prelude.{[], false, none, refl, some, true, ℕ_discrete, ◌+◌, ◌∷◌, ◌≡◌}
use backend_assessment_chall.FlashSale.{
  charge_wallet, confirm_order, deduct_failed, finalize_order, notify, purchase, purchase_new,
  purchase_reserved, settle_charge, to_order_result, wallet_reference_id,
}
use backend_assessment_chall.FlashSale.Queries.{
  add_job, create_order, find_event, find_existing_order, reserve_unit,
}
use backend_assessment_chall.FlashSale.Replay.{purchase-again}
use backend_assessment_chall.FlashSale.Stock.{purchase-units, remaining_units, units}
use backend_assessment_chall.FlashSale.Tails.{
  confirm_order_raced, deduct_failed_raced, new_order, with_order,
}
use backend_assessment_chall.FlashSale.Types.{OrderResult, PurchaseFlashSaleDto}
use backend_assessment_chall.Prelude.Int.{◌-ℤ◌}
use backend_assessment_chall.Prelude.Table.{find_by, update_by}
use backend_assessment_chall.Prelude.Text.{codes, text_discrete}
use backend_assessment_chall.Schema.{
  Order, OrderStatus, entry_by_key, entry_key_discrete, event_by_id, order_by_id, order_by_key,
  order_key_discrete, product_by_id, replace_event, replace_wallet, wallet_by_id, wallet_by_user,
}
use backend_assessment_chall.Tests.Data.{ann, bob, no_sleep, nobody_else, sale, shop, shop_db}
use backend_assessment_chall.Wallet.{deduct_locked, post_entry, purchase_deduct}
use backend_assessment_chall.Wallet.Queries.{
  create_entry, insufficient_balance, lock_wallet_by_id, lock_wallet_by_user_id, update_wallet,
}
use backend_assessment_chall.World.{World, fits_decimal, fits_integer, ok, random_uuid}

abbrev buy : PurchaseFlashSaleDto
buy = record { event_id = codes "e1"; idempotency_key = codes "k1" }

no_order_yet : order_by_id (shop.uuids shop.drawn) shop.db.orders ≡ none
unfolding order_by_id find_by
no_order_yet = refl

stock_fits : fits_integer (remaining_units (codes "e1") shop.db) ≡ true
unfolding fits_integer remaining_units event_by_id find_by text_discrete ℕ_discrete
stock_fits = refl

purchase-units_example :
    units (codes "e1") (purchase no_sleep ann buy shop).1.db ≡ units (codes "e1") shop.db
purchase-units_example =
    purchase-units no_sleep ann buy shop (codes "e1") nobody_else no_order_yet stock_fits

abbrev bought : OrderResult
bought = record {
  order_id = codes "u";
  event_id = codes "e1";
  status = OrderStatus.confirmed;
  idempotency_key = codes "k1";
  created_at = 100;
  replayed = false;
}

abbrev after_purchase : World
after_purchase = (purchase no_sleep ann buy shop).1

buying : purchase no_sleep ann buy shop ≡ (ok bought, after_purchase)
unfolding purchase purchase_new purchase_reserved charge_wallet settle_charge confirm_order notify
    add_job finalize_order create_order find_existing_order find_event reserve_unit to_order_result
    wallet_reference_id random_uuid purchase_deduct deduct_locked lock_wallet_by_user_id
    lock_wallet_by_id post_entry update_wallet create_entry wallet_by_user wallet_by_id
    replace_wallet replace_event event_by_id product_by_id order_by_id order_by_key
    order_key_discrete entry_by_key entry_key_discrete find_by update_by text_discrete ℕ_discrete
    ◌-ℤ◌ fits_decimal fits_integer
buying = refl

-- Bob sends Ann's key, and is given her order.
purchase-again_example :
    purchase no_sleep bob buy after_purchase
    ≡ (ok (record bought { replayed = true }), after_purchase)
purchase-again_example =
    purchase-again no_sleep ann bob buy buy shop after_purchase bought buying refl refl

-- One unit is reserved.
abbrev reserved_shop : World
reserved_shop = record shop { db = record shop_db { events = record sale { remaining = 1 } ∷ [] } }

abbrev ann_order : Order
ann_order = new_order (codes "o9") ann buy OrderStatus.failed 90

-- And another request of Ann's with the key has written its order.
abbrev raced_shop : World
raced_shop = with_order ann_order reserved_shop

event_found :
    event_by_id (codes "e1") reserved_shop.db.events ≡ some (record sale { remaining = 1 })
unfolding event_by_id find_by text_discrete ℕ_discrete
event_found = refl

order_found : order_by_key (codes "e1", codes "k1") raced_shop.db.orders ≡ some ann_order
unfolding order_by_key order_key_discrete find_by text_discrete ℕ_discrete
order_found = refl

two_fit : fits_integer (1 + 1) ≡ true
unfolding fits_integer
two_fit = refl

three_fit : fits_integer (1 + 1 + 1) ≡ true
unfolding fits_integer
three_fit = refl

deduct_failed_raced_example :
    let (r, w') = deduct_failed (codes "u") ann buy insufficient_balance raced_shop in
    (r ≡ ok (to_order_result ann_order true))
    × (event_by_id (codes "e1") w'.db.events ≡ some (record sale { remaining = 3 }))
    × (w'.db.orders ≡ ann_order ∷ [])
    × (w'.db.wallets ≡ shop_db.wallets)
    × (w'.db.entries ≡ shop_db.entries)
deduct_failed_raced_example =
    deduct_failed_raced (codes "u") ann buy raced_shop (record sale { remaining = 1 }) event_found
      two_fit insufficient_balance ann_order order_found three_fit

confirm_order_raced_example :
    let (r, w') = confirm_order no_sleep (codes "u") bob buy raced_shop in
    (r ≡ ok (to_order_result ann_order true))
    × (event_by_id (codes "e1") w'.db.events ≡ some (record sale { remaining = 2 }))
    × (w'.db.orders ≡ ann_order ∷ [])
    × (w'.db.wallets ≡ shop_db.wallets)
    × (w'.db.entries ≡ shop_db.entries)
    × (w'.queue ≡ [])
confirm_order_raced_example =
    confirm_order_raced (codes "u") bob buy raced_shop (record sale { remaining = 1 }) event_found
      two_fit no_sleep ann_order order_found
