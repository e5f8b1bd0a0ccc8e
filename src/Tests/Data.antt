-- ===== src/Tests/Data.antt =====
-- A shop with two users, Ann with 50.00 and Bob with nothing, and a flash sale of two units.
use backend_assessment_chall.Prelude.{[], arith, refl, suc, true, zero, ℕ, ℕ_discrete, ◌∷◌}
use backend_assessment_chall.FlashSale.Stock.{IsQuiet}
use backend_assessment_chall.FlashSale.Types.{Environment}
use backend_assessment_chall.Prelude.Int.{pos, ◌+ℤ◌}
use backend_assessment_chall.Prelude.Table.{Distinct, find_by}
use backend_assessment_chall.Prelude.Text.{Text, codes, text_discrete}
use backend_assessment_chall.Schema.{
  Database, FlashSaleEvent, LedgerEntry, LedgerType, Product, Wallet, wallet_by_id,
}
use backend_assessment_chall.Wallet.Balance.{IsSound, id_of, wallet_balance}
use backend_assessment_chall.Wallet.Reads.{ledger_sum}
use backend_assessment_chall.World.{World}

abbrev pub ann : Text
ann = codes "ann"

abbrev pub bob : Text
bob = codes "bob"

abbrev pub ann_wallet : Wallet
ann_wallet = record {
  id = codes "w1";
  user_id = ann;
  balance = pos 5000;
  version = 1;
  created_at = 1;
  updated_at = 2;
}

abbrev pub bob_wallet : Wallet
bob_wallet = record {
  id = codes "w2";
  user_id = bob;
  balance = pos 0;
  version = 0;
  created_at = 1;
  updated_at = 1;
}

abbrev pub first_entry : LedgerEntry
first_entry = record {
  wallet_id = codes "w1";
  kind = LedgerType.deposit;
  amount = pos 5000;
  balance_after = pos 5000;
  reference_id = codes "r0";
  created_at = 2;
}

abbrev pub camera : Product
camera = record { id = codes "p1"; name = codes "4K Action Camera"; price = pos 4000 }

abbrev pub sale : FlashSaleEvent
sale = record {
  id = codes "e1";
  product_id = codes "p1";
  total_stock = 2;
  remaining = 2;
  starts_at = 10;
  ends_at = 1000;
  created_at = 3;
}

abbrev pub shop_db : Database
shop_db = record {
  users = [];
  wallets = ann_wallet ∷ bob_wallet ∷ [];
  entries = first_entry ∷ [];
  products = camera ∷ [];
  events = sale ∷ [];
  orders = [];
}

-- The nth UUID is a text of n + 1 letters.
abbrev pub nth_uuid : ℕ → Text
nth_uuid zero = codes "u"
nth_uuid (suc n) = b'u' ∷ nth_uuid n

abbrev pub shop : World
shop = record {
  db = shop_db;
  redis = [];
  queue = [];
  clock = 100;
  uuids = nth_uuid;
  drawn = 0;
  locks = [];
}

shop-Distinct : Distinct text_discrete id_of shop.db.wallets
unfolding find_by text_discrete ℕ_discrete
shop-Distinct = (refl, (refl, tt))

pub shop-IsSound : IsSound shop.db
unfolding wallet_balance wallet_by_id find_by ledger_sum ◌+ℤ◌
shop-IsSound = record {
  balanced = λ id. ground arith;
  nonneg = λ id. ground arith;
  distinct = shop-Distinct;
}

abbrev pub no_sleep : Environment
no_sleep = record { elapse = λ ms w. w; queue_up = λ w. true }

abbrev pub nobody_else : IsQuiet no_sleep
nobody_else ms w = refl
