-- ===== src/Wallet/Frame.antt =====
-- The tables that `WalletService.purchaseDeduct` has nothing to do with.
use backend_assessment_chall.Prelude.{arith, ◌≡◌}
use backend_assessment_chall.Prelude.Int.{ℤ}
use backend_assessment_chall.Prelude.Text.{Text}
use backend_assessment_chall.Schema.{LedgerType, Wallet}
use backend_assessment_chall.Wallet.{deduct_locked, post_entry, purchase_deduct}
use backend_assessment_chall.Wallet.Queries.{
  create_entry, lock_wallet_by_id, lock_wallet_by_user_id, update_wallet,
}
use backend_assessment_chall.World.{World}

pub record SameShop (before after : World) : Type 0 where
  pub events : after.db.events ≡ before.db.events
  pub orders : after.db.orders ≡ before.db.orders
  pub products : after.db.products ≡ before.db.products
  pub users : after.db.users ≡ before.db.users
  pub redis : after.redis ≡ before.redis
  pub queue : after.queue ≡ before.queue
  pub clock : after.clock ≡ before.clock
  pub drawn : after.drawn ≡ before.drawn
  pub uuids : after.uuids ≡ before.uuids

post_entry-SameShop :
    (wallet : Wallet) (kind : LedgerType) (amount balance : ℤ) (reference : Text) (w : World)
    → SameShop w (post_entry wallet kind amount balance reference w).1
unfolding post_entry update_wallet create_entry
post_entry-SameShop wallet kind amount balance reference w = ground arith

pub purchase_deduct-SameShop :
    (user_id : Text) (amount : ℤ) (reference : Text) (w : World)
    → SameShop w (purchase_deduct user_id amount reference w).1
unfolding purchase_deduct lock_wallet_by_user_id lock_wallet_by_id deduct_locked
purchase_deduct-SameShop user_id amount reference w = grind (arith, post_entry-SameShop)
