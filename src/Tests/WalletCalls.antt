-- ===== src/Tests/WalletCalls.antt =====
-- The wallet's theorems at the sample shop.
use backend_assessment_chall.Prelude.{refl, ℕ_discrete, ◌≡◌}
use backend_assessment_chall.Prelude.Int.{negsuc, pos, ◌+ℤ◌, ◌-ℤ◌}
use backend_assessment_chall.Prelude.Table.{find_by, update_by}
use backend_assessment_chall.Prelude.Text.{codes, text_discrete}
use backend_assessment_chall.Schema.{
  LedgerEntry, LedgerType, Wallet, entry_by_key, entry_key_discrete, replace_wallet, wallet_by_id,
  wallet_by_user,
}
use backend_assessment_chall.Tests.Data.{ann, shop}
use backend_assessment_chall.Wallet.{deduct_locked, deposit, post_entry, purchase_deduct}
use backend_assessment_chall.Wallet.Balance.{wallet_balance}
use backend_assessment_chall.Wallet.Deposit.{Deposited, deposit-posts}
use backend_assessment_chall.Wallet.Purchase.{
  Deducted, purchase_deduct-again, purchase_deduct-posts,
}
use backend_assessment_chall.Wallet.Queries.{
  create_entry, lock_wallet_by_id, lock_wallet_by_user_id, update_wallet,
}
use backend_assessment_chall.Wallet.Types.{DepositDto, EntryResult}
use backend_assessment_chall.World.{World, fits_decimal, fits_integer, ok, random_uuid}
use backend_assessment_chall.World.Ensures.{Atomic}

abbrev ten : DepositDto
ten = record { amount = pos 1000 }

deposit-posts_example :
    Atomic shop.db
      (λ r w'. (wallet : Wallet) × Deposited ann (pos 1000) shop wallet r w')
      (deposit ann ten shop)
deposit-posts_example = deposit-posts ann ten shop

deposit_balance : wallet_balance (codes "w1") (deposit ann ten shop).1.db ≡ pos 6000
unfolding deposit lock_wallet_by_user_id lock_wallet_by_id post_entry update_wallet create_entry
    wallet_by_user wallet_by_id replace_wallet entry_by_key entry_key_discrete find_by update_by
    text_discrete ℕ_discrete ◌+ℤ◌ fits_decimal fits_integer random_uuid wallet_balance
deposit_balance = refl

purchase_deduct-posts_example :
    Atomic shop.db
      (λ r w'. (wallet : Wallet) × Deducted ann (pos 4000) (codes "o1") shop wallet r w')
      (purchase_deduct ann (pos 4000) (codes "o1") shop)
purchase_deduct-posts_example = purchase_deduct-posts ann (pos 4000) (codes "o1") shop

abbrev camera_entry : LedgerEntry
camera_entry = record {
  wallet_id = codes "w1";
  kind = LedgerType.purchase;
  amount = negsuc 3999;
  balance_after = pos 1000;
  reference_id = codes "o1";
  created_at = 100;
}

abbrev charged : EntryResult
charged = record { wallet_id = codes "w1"; balance = pos 1000; entry = camera_entry }

abbrev charged_shop : World
charged_shop = (purchase_deduct ann (pos 4000) (codes "o1") shop).1

charging : purchase_deduct ann (pos 4000) (codes "o1") shop ≡ (ok charged, charged_shop)
unfolding purchase_deduct deduct_locked lock_wallet_by_user_id lock_wallet_by_id post_entry
    update_wallet create_entry wallet_by_user wallet_by_id replace_wallet entry_by_key
    entry_key_discrete find_by update_by text_discrete ℕ_discrete ◌-ℤ◌ fits_decimal fits_integer
charging = refl

purchase_deduct-again_example :
    let (again, w'') = purchase_deduct ann (pos 9000) (codes "o1") charged_shop in
    (again ≡ ok charged) × (w''.db ≡ charged_shop.db)
purchase_deduct-again_example =
    purchase_deduct-again ann (pos 4000) (pos 9000) (codes "o1") shop charged_shop charged charging
