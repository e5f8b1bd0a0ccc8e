-- ===== src/Wallet/Balance.antt =====
-- When the wallets and the ledger agree, and the data base in which an entry and the balance that it
-- leads to were written.
use backend_assessment_chall.Prelude.{List, Option, arith, ite, none, refl, some, ◌∷◌, ◌≡◌}
use backend_assessment_chall.Prelude.Int.{int_laws, pos, ℤ, ◌+ℤ◌, ◌≤ℤ◌}
use backend_assessment_chall.Prelude.Table.{
  Distinct, find_by-key, find_by-update_by_ne, find_by-update_by_self, update_by-Distinct,
}
use backend_assessment_chall.Prelude.Text.{Text, text_discrete}
use backend_assessment_chall.Schema.{Database, LedgerEntry, Wallet, replace_wallet, wallet_by_id}
use backend_assessment_chall.Wallet.Reads.{ledger_sum}

-- The balance of the wallet with the id; nothing, if there is no such wallet.
abbrev pub balance_in : Option Wallet → ℤ
balance_in none = pos 0
balance_in (some wallet) = wallet.balance

unfoldable pub wallet_balance : Text → Database → ℤ
wallet_balance id db = balance_in (wallet_by_id id db.wallets)

abbrev pub id_of : Wallet → Text
id_of w = w.id

pub wallet_by_id-id :
    (id : Text) (wallets : List Wallet) (wallet : Wallet)
    → wallet_by_id id wallets ≡ some wallet
    → wallet.id ≡ id
unfolding wallet_by_id
wallet_by_id-id = find_by-key text_discrete id_of

-- The ledger invariant: every balance is the sum of the wallet's entries, an id with no wallet has
-- no entries but such as sum to 0, no balance is negative, and no id is used twice.
pub record IsSound (db : Database) : Type 0 where
  pub balanced : (id : Text) → wallet_balance id db ≡ ledger_sum id db.entries
  pub nonneg : (id : Text) → pos 0 ≤ℤ wallet_balance id db
  pub distinct : Distinct text_discrete id_of db.wallets

-- A wallet replaced by `new`, and an entry added.
abbrev pub posted : Wallet → LedgerEntry → Database → Database
posted new entry db = record db {
  wallets = replace_wallet new.id new db.wallets;
  entries = entry ∷ db.entries;
}

pub wallet_balance-posted :
    (db : Database) (old new : Wallet) (entry : LedgerEntry) (id : Text)
    → wallet_by_id new.id db.wallets ≡ some old
    → wallet_balance id (posted new entry db)
      ≡ ite (text_discrete new.id id) new.balance (wallet_balance id db)
unfolding wallet_balance replace_wallet wallet_by_id
wallet_balance-posted db old new entry id found = ground (
  arith,
  find_by-update_by_self text_discrete id_of new.id (λ _. new) db.wallets old found,
  find_by-update_by_ne text_discrete id_of id new.id new db.wallets,
)

pub wallet_balance-found :
    (db : Database) (old : Wallet) (id : Text)
    → wallet_by_id id db.wallets ≡ some old
    → wallet_balance id db ≡ old.balance
unfolding wallet_balance
wallet_balance-found db old id found = rw found

posted-balanced :
    (db : Database) (old new : Wallet) (entry : LedgerEntry) (id : Text)
    → wallet_balance id db ≡ ledger_sum id db.entries
    → wallet_by_id new.id db.wallets ≡ some old
    → entry.wallet_id ≡ new.id
    → new.balance ≡ old.balance +ℤ entry.amount
    → wallet_balance id (posted new entry db) ≡ ledger_sum id (entry ∷ db.entries)
unfolding ledger_sum
posted-balanced db old new entry id sound found own sums = grind (
  int_laws,
  wallet_balance-posted db old new entry id found,
  wallet_balance-found db old new.id found,
)

pub posted-IsSound :
    (db : Database) (old new : Wallet) (entry : LedgerEntry)
    → IsSound db
    → wallet_by_id new.id db.wallets ≡ some old
    → entry.wallet_id ≡ new.id
    → new.balance ≡ old.balance +ℤ entry.amount
    → pos 0 ≤ℤ new.balance
    → IsSound (posted new entry db)
unfolding replace_wallet
posted-IsSound db old new entry sound found own sums enough = record {
  balanced = λ id. posted-balanced db old new entry id (sound.balanced id) found own sums;
  nonneg = λ id. grind (arith, wallet_balance-posted db old new entry id found, sound.nonneg id);
  distinct = update_by-Distinct text_discrete id_of new.id new db.wallets refl sound.distinct;
}
