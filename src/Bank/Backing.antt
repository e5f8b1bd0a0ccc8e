-- ===== src/Bank/Backing.antt =====
-- Where the money comes from: the sum of all balances against the entries for deposits and
-- purchases.
use backend_assessment_chall.Prelude.{
  Bool, List, [], false, if◌then◌else◌, refl, true, ℕ, ◌∙◌, ◌∷◌, ◌≡◌,
}
use backend_assessment_chall.Prelude.Int.{int_laws, pos, ℤ, ◌+ℤ◌}
use backend_assessment_chall.Prelude.Text.{Text}
use backend_assessment_chall.Schema.{Database, LedgerEntry, LedgerType, Wallet}
use backend_assessment_chall.Wallet.Balance.{IsSound}
use backend_assessment_chall.Wallet.Effects.{renewed}
use backend_assessment_chall.Wallet.Posting.{Posted}
use backend_assessment_chall.Wallet.Transfer.{Transferred}
use backend_assessment_chall.Wallet.Transfer.Sound.{
  Transferred-total, total_balance, total_balance-replace,
}
use backend_assessment_chall.Wallet.Types.{EntryResult, Runtime, TransferDto, TransferResult}

abbrev pub is_external : LedgerType → Bool
is_external LedgerType.deposit = true
is_external LedgerType.purchase = true
is_external LedgerType.transfer_in = false
is_external LedgerType.transfer_out = false

-- What was put in, less what was spent.
unfoldable pub external_sum : List LedgerEntry → ℤ
external_sum [] = pos 0
external_sum (e ∷ es) =
    let rest = external_sum es in if is_external e.kind then e.amount +ℤ rest else rest

pub record IsBacked (db : Database) : Type 0 where
  pub sound : IsSound db
  pub backed : total_balance db.wallets ≡ external_sum db.entries

posted_sums :
    (total total' old new amount external : ℤ)
    → total' +ℤ old ≡ total +ℤ new
    → new ≡ old +ℤ amount
    → total ≡ external
    → total' ≡ amount +ℤ external
posted_sums total total' old new amount external p q r = grind int_laws

pub Posted-backed :
    {old : Wallet} {now : ℕ} {kind : LedgerType} {amount : ℤ} {reference : Text}
    {before after : Database} {r : EntryResult}
    → Posted old now kind amount reference before r after
    → is_external kind ≡ true
    → total_balance before.wallets ≡ external_sum before.entries
    → total_balance after.wallets ≡ external_sum after.entries
unfolding external_sum
Posted-backed {old = old} {now = now} {amount = amount} {before = before} {r = r} p external
      backed =
    rw (p.after_lem, p.entry_lem, external)
      (posted_sums (total_balance before.wallets) _ old.balance r.balance amount
        (external_sum before.entries)
        (total_balance-replace old (renewed now old r.balance) before.wallets p.found) p.moved
        backed)

module _ ⦃runtime : Runtime⦄ where
  pub Transferred-backed :
      (s t : Wallet) (dto : TransferDto) (now : ℕ) (before after : Database) (r : TransferResult)
      → Transferred s t dto now before r after
      → total_balance before.wallets ≡ external_sum before.entries
      → total_balance after.wallets ≡ external_sum after.entries
  unfolding external_sum
  Transferred-backed s t dto now before after r p backed =
      Transferred-total s t dto now before after r p ∙ (backed ∙ rw p.after_lem refl)
