-- ===== src/Wallet/Reads.antt =====
-- src/modules/wallet/wallet.service.ts: `getMe` and `verifyInvariant`, which only read. PostgreSQL
-- leaves the order of entries of one millisecond open; here the newer row comes first.
use backend_assessment_chall.Prelude.{
  List, Option, [], drop, if◌then◌else◌, ite, leb, length, map, none, some, suc, zero, ℕ, ◌-◌, ◌∷◌,
}
use backend_assessment_chall.Prelude.Int.{eqb_ℤ, pos, ℤ, ◌+ℤ◌}
use backend_assessment_chall.Prelude.Text.{Text, text_discrete}
use backend_assessment_chall.Schema.{LedgerEntry, Wallet, wallet_by_id, wallet_by_user}
use backend_assessment_chall.Wallet.Queries.{user_wallet_not_found}
use backend_assessment_chall.Wallet.Types.{InvariantReport, Runtime, WalletView}
use backend_assessment_chall.World.{Action, gets, known_request, or_throw, p2025, pure, ◌>>=◌}

unfoldable pub entries_of : Text → List LedgerEntry → List LedgerEntry
entries_of id [] = []
entries_of id (e ∷ es) =
    ite (text_discrete e.wallet_id id) (e ∷ entries_of id es) (entries_of id es)

-- `orderBy: { createdAt: 'desc' }`
unfoldable pub insert_newest_first : LedgerEntry → List LedgerEntry → List LedgerEntry
insert_newest_first e [] = e ∷ []
insert_newest_first e (x ∷ es) =
    if leb x.created_at e.created_at then e ∷ x ∷ es else x ∷ insert_newest_first e es

unfoldable pub newest_first : List LedgerEntry → List LedgerEntry
unfolding insert_newest_first
newest_first [] = []
newest_first (e ∷ es) = insert_newest_first e (newest_first es)

-- `take: limit`
unfoldable pub take_entries : ℕ → List LedgerEntry → List LedgerEntry
take_entries zero es = []
take_entries (suc n) [] = []
take_entries (suc n) (e ∷ es) = e ∷ take_entries n es

unfoldable pub get_me : Text → ℕ → Action WalletView
unfolding entries_of newest_first take_entries
get_me user_id limit = do
  wallet ← or_throw (← gets (λ w. wallet_by_user user_id w.db.wallets)) user_wallet_not_found
  entries ← gets (λ w. take_entries limit (newest_first (entries_of wallet.id w.db.entries)))
  pure (record { balance = wallet.balance; entries = entries })

-- `take: -limit` counts from the end.
unfoldable pub get_me_from_end : Text → ℕ → Action WalletView
unfolding entries_of newest_first
get_me_from_end user_id limit = do
  wallet ← or_throw (← gets (λ w. wallet_by_user user_id w.db.wallets)) user_wallet_not_found
  entries ← gets (λ w.
      let own : List LedgerEntry = newest_first (entries_of wallet.id w.db.entries) in
      drop (length own - limit) own)
  pure (record { balance = wallet.balance; entries = entries })

-- `aggregate({ where: { walletId }, _sum: { amount: true } })`, null read as 0.
unfoldable pub ledger_sum : Text → List LedgerEntry → ℤ
ledger_sum id [] = pos 0
ledger_sum id (e ∷ es) =
    let rest = ledger_sum id es in ite (text_discrete e.wallet_id id) (e.amount +ℤ rest) rest

module _ ⦃runtime : Runtime⦄ where
  open runtime use {decimal_to_string}

  unfoldable pub check_wallet : List LedgerEntry → Wallet → InvariantReport
  unfolding ledger_sum
  check_wallet entries wallet = record {
    wallet_id = wallet.id;
    balance = decimal_to_string wallet.balance;
    ledger_sum = decimal_to_string (ledger_sum wallet.id entries);
    matches = eqb_ℤ wallet.balance (ledger_sum wallet.id entries);
  }

  -- The argument is left out, or it is the empty text: every wallet is checked.
  unfoldable pub wallets_to_check : Option Text → Action (List Wallet)
  wallets_to_check none = gets (λ w. w.db.wallets)
  wallets_to_check (some []) = gets (λ w. w.db.wallets)
  wallets_to_check (some (c ∷ cs)) = do
    wallet ← or_throw (← gets (λ w. wallet_by_id (c ∷ cs) w.db.wallets)) (known_request p2025)
    pure (wallet ∷ [])

  unfoldable pub verify_invariant : Option Text → Action (List InvariantReport)
  unfolding check_wallet wallets_to_check
  verify_invariant wallet_id = do
    wallets ← wallets_to_check wallet_id
    entries ← gets (λ w. w.db.entries)
    pure (map (check_wallet entries) wallets)
