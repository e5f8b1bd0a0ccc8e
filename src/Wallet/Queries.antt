-- ===== src/Wallet/Queries.antt =====
-- The reads and writes of the tables in src/modules/wallet/wallet.service.ts, with the constraints
-- that the columns and unique indexes put on the writes.
use backend_assessment_chall.Prelude.{[], is_some, not, ◌&&◌, ◌++◌, ◌+◌, ◌∷◌}
use backend_assessment_chall.Prelude.Int.{ℤ}
use backend_assessment_chall.Prelude.Text.{Text, codes}
use backend_assessment_chall.Schema.{
  LedgerEntry, Wallet, entry_by_key, entry_key, replace_wallet, wallet_by_id, wallet_by_user,
}
use backend_assessment_chall.World.{
  Action, Exception, HttpError, fits_decimal, fits_integer, gets, http_exception, known_request,
  modify_db, ok, or_throw, p2002, p2020, p2025, pure, throw_if, ◌>>=◌, ◌>>◌,
}

abbrev pub user_wallet_not_found : Exception
user_wallet_not_found = http_exception HttpError.not_found (codes "Wallet not found for this user")

abbrev pub wallet_not_found : Exception
wallet_not_found = http_exception HttpError.not_found (codes "Wallet not found")

abbrev pub sender_not_found : Exception
sender_not_found = http_exception HttpError.not_found (codes "Sender wallet not found")

abbrev pub recipient_not_found : Exception
recipient_not_found = http_exception HttpError.not_found (codes "Recipient wallet not found")

abbrev pub insufficient_balance : Exception
insufficient_balance = http_exception HttpError.bad_request (codes "Insufficient balance")

abbrev pub self_transfer : Exception
self_transfer = http_exception HttpError.bad_request (codes "Cannot transfer to yourself")

-- `tx.wallet.update({ where: { id }, data: { balance, version: { increment: 1 } } })`
unfoldable pub update_wallet : Text → ℤ → Action Wallet
update_wallet id balance = do
  wallet ← or_throw (← gets (λ w. wallet_by_id id w.db.wallets)) (known_request p2025)
  throw_if (not (fits_decimal balance && fits_integer (wallet.version + 1))) (known_request p2020)
  now ← gets (λ w. w.clock)
  let updated : Wallet = record wallet {
    balance = balance;
    version = wallet.version + 1;
    updated_at = now;
  }
  modify_db (λ db. record db { wallets = replace_wallet id updated db.wallets })
  pure updated

-- `tx.ledgerEntry.create({ data })`
unfoldable pub create_entry : LedgerEntry → Action LedgerEntry
create_entry entry = do
  existing ← gets (λ w. entry_by_key (entry_key entry) w.db.entries)
  throw_if (is_some existing) (known_request p2002)
  throw_if (not (fits_decimal entry.amount && fits_decimal entry.balance_after))
      (known_request p2020)
  modify_db (λ db. record db { entries = entry ∷ db.entries })
  pure entry

-- `SELECT * FROM "Wallet" WHERE id = … FOR UPDATE`: the row, which is locked from then on.
unfoldable pub lock_wallet_by_id : Text → Action Wallet
lock_wallet_by_id id = do
  wallet ← or_throw (← gets (λ w. wallet_by_id id w.db.wallets)) wallet_not_found
  (λ w. (ok wallet, record w { locks = w.locks ++ (id ∷ []) }))

unfoldable pub lock_wallet_by_user_id : Text → Action Wallet
unfolding lock_wallet_by_id
lock_wallet_by_user_id user_id = do
  wallet ← or_throw (← gets (λ w. wallet_by_user user_id w.db.wallets)) user_wallet_not_found
  lock_wallet_by_id wallet.id
