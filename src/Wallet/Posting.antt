-- ===== src/Wallet/Posting.antt =====
-- The end that `deposit` and `purchaseDeduct` share, and what it makes of a sound data base.
use backend_assessment_chall.Prelude.{List, Option, [], arith, none, refl, some, ℕ, ◌∷◌, ◌≡◌}
use backend_assessment_chall.Prelude.Int.{pos, ℤ, ◌+ℤ◌, ◌≤ℤ◌}
use backend_assessment_chall.Prelude.Table.{find_by, find_by-update_by_self, update_by}
use backend_assessment_chall.Prelude.Text.{Text, text_discrete}
use backend_assessment_chall.Schema.{
  Database, LedgerEntry, LedgerType, Wallet, entry_by_key, replace_wallet, wallet_by_id,
  wallet_by_user,
}
use backend_assessment_chall.Wallet.{post_entry}
use backend_assessment_chall.Wallet.Balance.{
  IsSound, id_of, posted, posted-IsSound, wallet_balance-found,
}
use backend_assessment_chall.Wallet.Effects.{renewed}
use backend_assessment_chall.Wallet.Queries.{create_entry, update_wallet}
use backend_assessment_chall.Wallet.Types.{EntryResult}
use backend_assessment_chall.World.{World}
use backend_assessment_chall.World.Ensures.{Ensures}

abbrev pub entry_for : Wallet → LedgerType → ℤ → ℤ → Text → ℕ → LedgerEntry
entry_for wallet kind amount balance reference_id now = record {
  wallet_id = wallet.id;
  kind = kind;
  amount = amount;
  balance_after = balance;
  reference_id = reference_id;
  created_at = now;
}

-- A wallet `old` of the data base got the balance of the reply, by an entry of the amount.
pub record Posted (old : Wallet) (now : ℕ) (kind : LedgerType) (amount : ℤ) (reference : Text)
    (before : Database) (r : EntryResult) (after : Database) : Type 0 where
  pub found : wallet_by_id old.id before.wallets ≡ some old
  pub fresh : entry_by_key (old.id, reference, kind) before.entries ≡ none
  pub moved : r.balance ≡ old.balance +ℤ amount
  pub own : r.wallet_id ≡ old.id
  pub entry_lem : r.entry ≡ entry_for old kind amount r.balance reference now
  pub after_lem : after ≡ posted (renewed now old r.balance) r.entry before

pub post_entry-Posted :
    (wallet : Wallet) (kind : LedgerType) (amount balance : ℤ) (reference : Text) (w : World)
    → wallet_by_id wallet.id w.db.wallets ≡ some wallet
    → balance ≡ wallet.balance +ℤ amount
    → Ensures
        (λ r w'. Posted wallet w.clock kind amount reference w.db r w'.db)
        (post_entry wallet kind amount balance reference w)
unfolding post_entry update_wallet create_entry
post_entry-Posted wallet kind amount balance reference w found sum = ground arith

pub Posted-IsSound :
    {old : Wallet} {now : ℕ} {kind : LedgerType} {amount : ℤ} {reference : Text}
    {before after : Database} {r : EntryResult}
    → Posted old now kind amount reference before r after
    → IsSound before
    → pos 0 ≤ℤ r.balance
    → IsSound after
Posted-IsSound {old = old} {now = now} {before = before} {r = r} p sound enough = rw p.after_lem (
    posted-IsSound before old (renewed now old r.balance) r.entry sound p.found (ground arith)
      (ground arith) enough)

-- A posting that lowers no balance below zero keeps the ledger invariant.
pub Posted-keeps :
    {old : Wallet} {now : ℕ} {kind : LedgerType} {amount : ℤ} {reference : Text}
    {before after : Database} {r : EntryResult}
    → Posted old now kind amount reference before r after
    → pos 0 ≤ℤ old.balance +ℤ amount
    → IsSound before
    → IsSound after
Posted-keeps p enough sound = Posted-IsSound p sound (rw p.moved enough)

pub Posted-nonneg :
    {old : Wallet} {now : ℕ} {kind : LedgerType} {amount : ℤ} {reference : Text}
    {before after : Database} {r : EntryResult}
    → Posted old now kind amount reference before r after
    → IsSound before
    → pos 0 ≤ℤ old.balance
Posted-nonneg {old = old} {before = before} p sound =
    rw (← wallet_balance-found before old old.id p.found) (sound.nonneg old.id)

abbrev pub id_in : Option Wallet → Option Text
id_in none = none
id_in (some wallet) = some wallet.id

-- Every user's wallet keeps its id when a wallet row gets a new balance.
pub wallet_by_user-replace :
    (user_id : Text) (old new : Wallet) (wallets : List Wallet)
    → wallet_by_id new.id wallets ≡ some old
    → new.user_id ≡ old.user_id
    → id_in (wallet_by_user user_id (replace_wallet new.id new wallets))
      ≡ id_in (wallet_by_user user_id wallets)
unfolding wallet_by_user wallet_by_id replace_wallet find_by update_by
wallet_by_user-replace user_id old new [] found same = refl
wallet_by_user-replace user_id old new (x ∷ xs) found same =
    ground (arith, wallet_by_user-replace user_id old new xs)

module _ {old : Wallet} {now : ℕ} {kind : LedgerType} {amount : ℤ} {reference : Text}
    {before after : Database} {r : EntryResult}
    (p : Posted old now kind amount reference before r after) where
  pub Posted-user :
      (user_id : Text)
      → id_in (wallet_by_user user_id after.wallets) ≡ id_in (wallet_by_user user_id before.wallets)
  Posted-user user_id =
      rw p.after_lem
        (wallet_by_user-replace user_id old (renewed now old r.balance) before.wallets p.found refl)

  pub Posted-wallet : wallet_by_id r.wallet_id after.wallets ≡ some (renewed now old r.balance)
  unfolding wallet_by_id replace_wallet
  Posted-wallet =
      rw (p.after_lem, p.own)
        (find_by-update_by_self text_discrete id_of old.id (λ _. renewed now old r.balance)
          before.wallets old p.found refl)

  pub Posted-entry : entry_by_key (r.wallet_id, reference, kind) after.entries ≡ some r.entry
  unfolding entry_by_key find_by
  Posted-entry = rw (p.after_lem, p.own, p.entry_lem) (ground arith)
