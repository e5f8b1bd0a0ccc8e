-- ===== src/Tests/TransferCalls.antt =====
-- The theorems on transfers at the sample shop.
use backend_assessment_chall.Prelude.{[], arith, false, refl, some, true, ℕ_discrete, ◌+◌, ◌≡◌, ◌≢◌}
use backend_assessment_chall.Prelude.Int.{negsuc, pos, ◌+ℤ◌, ◌-ℤ◌}
use backend_assessment_chall.Prelude.Table.{find_by, update_by}
use backend_assessment_chall.Prelude.Text.{codes, text_discrete, text_leb}
use backend_assessment_chall.Redis.{redis_get, redis_set, stored_by_key}
use backend_assessment_chall.Schema.{
  LedgerEntry, LedgerType, Wallet, entry_by_key, entry_key_discrete, replace_wallet, wallet_by_id,
  wallet_by_user,
}
use backend_assessment_chall.Tests.Codec.{toy_decimal, toy_runtime}
use backend_assessment_chall.Tests.Data.{ann, ann_wallet, bob, bob_wallet, shop, shop-IsSound}
use backend_assessment_chall.Wallet.{
  sort_pair, transfer, transfer_body, transfer_cached, transfer_locked, transfer_uncached,
}
use backend_assessment_chall.Wallet.Queries.{create_entry, lock_wallet_by_id, update_wallet}
use backend_assessment_chall.Wallet.Transfer.Again.{transfer-again}
use backend_assessment_chall.Wallet.Transfer.Locks.{locked_pair, transfer_locked_order}
use backend_assessment_chall.Wallet.Transfer.Race.{transfer_locked_conflict, transfer_locked_late}
use backend_assessment_chall.Wallet.Transfer.Settlement.{Settled, transfer_body-Settled}
use backend_assessment_chall.Wallet.Types.{TransferDto, TransferResult}
use backend_assessment_chall.World.{
  World, err, fits_decimal, fits_integer, known_request, ok, p2002, transaction,
}
use backend_assessment_chall.World.Ensures.{Atomic}

abbrev to_bob : TransferDto
to_bob = record { to_user_id = bob; amount = pos 2000; idempotency_key = codes "k1" }

abbrev back_to_ann : TransferDto
back_to_ann = record { to_user_id = ann; amount = pos 0; idempotency_key = codes "k2" }

bob_is_not_ann : bob ≢ ann
bob_is_not_ann e = ground arith

transfer_body-Settled_example :
    Atomic shop.db
      (λ r w'. (s : Wallet) × (t : Wallet) × Settled ann to_bob shop s t r w')
      (transaction (transfer_body ann to_bob) shop)
transfer_body-Settled_example = transfer_body-Settled ann to_bob shop shop-IsSound bob_is_not_ann

abbrev moved_20 : TransferResult
moved_20 = record {
  from_wallet_id = codes "w1";
  to_wallet_id = codes "w2";
  amount = toy_decimal (pos 2000);
  from_balance = toy_decimal (pos 3000);
  to_balance = some (toy_decimal (pos 2000));
  reference_id = codes "k1";
  replayed = false;
}

abbrev after_body : World
after_body = (transaction (transfer_body ann to_bob) shop).1

abbrev after_transfer : World
after_transfer = (transfer ann to_bob shop).1

transferring : transfer ann to_bob shop ≡ (ok moved_20, after_transfer)
unfolding transfer transfer_cached transfer_uncached redis_get redis_set stored_by_key transfer_body
    transfer_locked sort_pair text_leb toy_runtime lock_wallet_by_id update_wallet create_entry
    wallet_by_user wallet_by_id replace_wallet entry_by_key entry_key_discrete find_by update_by
    text_discrete ℕ_discrete ◌+ℤ◌ ◌-ℤ◌ fits_decimal fits_integer
transferring = refl

transfer-again_example : transfer ann to_bob after_transfer ≡ (ok moved_20, after_transfer)
transfer-again_example =
    transfer-again ann to_bob to_bob shop after_transfer moved_20 transferring refl bob_is_not_ann

abbrev ann_after : Wallet
ann_after = record ann_wallet { balance = pos 3000; version = 2; updated_at = 100 }

abbrev bob_after : Wallet
bob_after = record bob_wallet { balance = pos 2000; version = 1; updated_at = 100 }

abbrev out_after : LedgerEntry
out_after = record {
  wallet_id = codes "w1";
  kind = LedgerType.transfer_out;
  amount = negsuc 1999;
  balance_after = pos 3000;
  reference_id = codes "k1";
  created_at = 100;
}

ann_found : wallet_by_id (codes "w1") after_body.db.wallets ≡ some ann_after
unfolding transfer_locked sort_pair text_leb toy_runtime lock_wallet_by_id update_wallet
    create_entry wallet_by_user transfer_body wallet_by_id replace_wallet entry_by_key
    entry_key_discrete find_by update_by text_discrete ℕ_discrete ◌+ℤ◌ ◌-ℤ◌ fits_decimal
    fits_integer
ann_found = refl

bob_found : wallet_by_id (codes "w2") after_body.db.wallets ≡ some bob_after
unfolding transfer_locked sort_pair text_leb toy_runtime lock_wallet_by_id update_wallet
    create_entry wallet_by_user transfer_body wallet_by_id replace_wallet entry_by_key
    entry_key_discrete find_by update_by text_discrete ℕ_discrete ◌+ℤ◌ ◌-ℤ◌ fits_decimal
    fits_integer
bob_found = refl

wallets_apart : codes "w2" ≢ codes "w1"
wallets_apart e = ground arith

out_found :
    entry_by_key (codes "w1", codes "k1", LedgerType.transfer_out) after_body.db.entries
    ≡ some out_after
unfolding transfer_locked sort_pair text_leb toy_runtime lock_wallet_by_id update_wallet
    create_entry wallet_by_user transfer_body wallet_by_id replace_wallet entry_by_key
    entry_key_discrete find_by update_by text_discrete ℕ_discrete ◌+ℤ◌ ◌-ℤ◌ fits_decimal
    fits_integer
out_found = refl

ann_fits : fits_decimal (pos 3000 -ℤ pos 2000) ≡ true
unfolding fits_decimal ◌-ℤ◌
ann_fits = refl

bob_fits : fits_decimal (pos 2000 +ℤ pos 2000) ≡ true
unfolding fits_decimal ◌+ℤ◌
bob_fits = refl

a_next_version : fits_integer (2 + 1) ≡ true
unfolding fits_integer
a_next_version = refl

b_next_version : fits_integer (1 + 1) ≡ true
unfolding fits_integer
b_next_version = refl

-- Ann's second request, which checked the ledger before the first one was settled, and now starts
-- to lock the rows.
transfer_locked_late_example :
    Atomic after_body.db
      (λ r w'. ⊥)
      (transaction (transfer_locked ann_wallet bob_wallet to_bob) after_body)
transfer_locked_late_example =
    transfer_locked_late ann_wallet bob_wallet ann_after bob_after to_bob after_body out_after
      ann_found bob_found wallets_apart out_found

transfer_locked_conflict_example :
    (transaction (transfer_locked ann_wallet bob_wallet to_bob) after_body).0
    ≡ err (known_request p2002)
transfer_locked_conflict_example =
    transfer_locked_conflict ann_wallet bob_wallet ann_after bob_after to_bob after_body out_after
      ann_found bob_found wallets_apart out_found (ground arith) ann_fits bob_fits a_next_version
      b_next_version

abbrev there : World
there = (transfer_locked ann_wallet bob_wallet to_bob shop).1

abbrev back : World
back = (transfer_locked bob_wallet ann_wallet back_to_ann shop).1

abbrev moved_0 : TransferResult
moved_0 = record {
  from_wallet_id = codes "w2";
  to_wallet_id = codes "w1";
  amount = toy_decimal (pos 0);
  from_balance = toy_decimal (pos 0);
  to_balance = some (toy_decimal (pos 5000));
  reference_id = codes "k2";
  replayed = false;
}

going_there : transfer_locked ann_wallet bob_wallet to_bob shop ≡ (ok moved_20, there)
unfolding transfer_locked sort_pair text_leb toy_runtime lock_wallet_by_id update_wallet
    create_entry wallet_by_user transfer_body wallet_by_id replace_wallet entry_by_key
    entry_key_discrete find_by update_by text_discrete ℕ_discrete ◌+ℤ◌ ◌-ℤ◌ fits_decimal
    fits_integer
going_there = refl

going_back : transfer_locked bob_wallet ann_wallet back_to_ann shop ≡ (ok moved_0, back)
unfolding transfer_locked sort_pair text_leb toy_runtime lock_wallet_by_id update_wallet
    create_entry wallet_by_user transfer_body wallet_by_id replace_wallet entry_by_key
    entry_key_discrete find_by update_by text_discrete ℕ_discrete ◌+ℤ◌ ◌-ℤ◌ fits_decimal
    fits_integer
going_back = refl

transfer_locked_order_example :
    (there.locks ≡ back.locks)
    × (there.locks ≡ locked_pair [] (codes "w1") (codes "w2"))
    × (text_leb (sort_pair (codes "w1") (codes "w2")).0 (sort_pair (codes "w1") (codes "w2")).1
        ≡ true)
transfer_locked_order_example =
    transfer_locked_order ann_wallet bob_wallet to_bob back_to_ann shop there shop back moved_20
      moved_0 going_there going_back refl
