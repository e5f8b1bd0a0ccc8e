-- ===== src/Bank/Wallets.antt =====
-- `WalletService.deposit` and `WalletService.transfer` as steps of the bank.
use backend_assessment_chall.Prelude.{ap, arith, inl, inr, subst, sym, ℕ, ◌∙◌, ◌⊎◌}
use backend_assessment_chall.Bank.{Credits, Moves, Same, adjust, bank_of, wallet_of}
use backend_assessment_chall.Prelude.Int.{pos, sub-eq-add_neg, ℤ, ◌+ℤ◌, ◌-ℤ◌, ◌≤ℤ◌}
use backend_assessment_chall.Prelude.Text.{Text}
use backend_assessment_chall.Schema.{Database, LedgerType, Wallet}
use backend_assessment_chall.Wallet.{deposit, transfer, transfer_body}
use backend_assessment_chall.Wallet.Balance.{
  IsSound, posted, wallet_balance-found, wallet_balance-posted,
}
use backend_assessment_chall.Wallet.Deposit.{Deposited, deposit-posts}
use backend_assessment_chall.Wallet.Effects.{renewed}
use backend_assessment_chall.Wallet.Posting.{Posted, id_in}
use backend_assessment_chall.Wallet.Transfer.{
  Transferred, in_entry, out_entry, wallet_by_id-replace_ne,
}
use backend_assessment_chall.Wallet.Transfer.Again.{transfer_writes}
use backend_assessment_chall.Wallet.Transfer.Settlement.{Settled, transfer_body-Settled}
use backend_assessment_chall.Wallet.Types.{
  DepositDto, EntryResult, Runtime, TransferDto, TransferResult,
}
use backend_assessment_chall.World.{Result, World, err, ok, transaction}
use backend_assessment_chall.World.Ensures.{Atomic}

pub Posted-adjusts :
    {old : Wallet} {now : ℕ} {kind : LedgerType} {amount : ℤ} {reference : Text}
    {before after : Database} {r : EntryResult}
    → Posted old now kind amount reference before r after
    → Same (adjust old.id amount (bank_of before)) (bank_of after)
Posted-adjusts {old = old} {now = now} {amount = amount} {before = before} {r = r} p x =
    rw p.after_lem (
      ground (
        arith,
        wallet_balance-posted before old (renewed now old r.balance) r.entry x p.found,
        wallet_balance-found before old x,
        p.moved,
      ))

deposit_outcome-Credits :
    (user_id : Text) (amount : ℤ) (w : World) (x : Result EntryResult × World)
    → pos 0 ≤ℤ amount
    → Atomic w.db (λ r w'. (wallet : Wallet) × Deposited user_id amount w wallet r w') x
    → Same (bank_of w.db) (bank_of x.1.db)
      ⊎ Credits (wallet_of user_id w.db) amount (bank_of w.db) (bank_of x.1.db)
deposit_outcome-Credits user_id amount w (ok r, w') enough (wallet, (own, p)) =
    inr (wallet.id, ground (arith, own, p.own), enough, Posted-adjusts p)
deposit_outcome-Credits user_id amount w (err e, w') enough same =
    inl (λ x. ap (λ db. bank_of db x) same)

-- A deposit does nothing, or it credits the user's wallet.
pub deposit-Credits :
    (user_id : Text) (dto : DepositDto) (w : World)
    → pos 0 ≤ℤ dto.amount
    → Same (bank_of w.db) (bank_of (deposit user_id dto w).1.db)
      ⊎ Credits
          (wallet_of user_id w.db)
          dto.amount
          (bank_of w.db)
          (bank_of (deposit user_id dto w).1.db)
deposit-Credits user_id dto w enough =
    deposit_outcome-Credits user_id dto.amount w (deposit user_id dto w) enough
      (deposit-posts user_id dto w)

module _ ⦃runtime : Runtime⦄ where
  -- The wallet that gives is charged, then the one that takes is credited.
  Transferred-Moves :
      (s t : Wallet) (dto : TransferDto) (now : ℕ) (before after : Database) (r : TransferResult)
      → Transferred s t dto now before r after
      → Same
          (adjust t.id dto.amount (adjust s.id (pos 0 -ℤ dto.amount) (bank_of before)))
          (bank_of after)
  Transferred-Moves s t dto now before after r p x =
      let s' : Wallet = renewed now s (s.balance -ℤ dto.amount) in
      let t' : Wallet = renewed now t (t.balance +ℤ dto.amount) in
      let middle : Database = posted s' (out_entry s dto now) before in
      rw p.after_lem (
        ground (
          arith,
          p.apart,
          sub-eq-add_neg s.balance dto.amount,
          wallet_balance-posted middle t t' (in_entry t dto now) x
              (wallet_by_id-replace_ne t.id s' before.wallets p.apart ∙ p.to_lem),
          wallet_balance-posted before s s' (out_entry s dto now) x p.from_lem,
          wallet_balance-found before s x,
          wallet_balance-found before t x,
        ))

  abbrev Moved : Text → TransferDto → Database → Database → Type 0
  Moved user_id dto before after =
      Same (bank_of before) (bank_of after)
      ⊎ Moves (wallet_of user_id before) (wallet_of dto.to_user_id before) dto.amount
          (bank_of before) (bank_of after)

  Settled-Moves :
      (user_id : Text) (dto : TransferDto) (w : World) (x : Result TransferResult × World)
      → pos 0 ≤ℤ dto.amount
      → Atomic w.db (λ r w'. (s : Wallet) × (t : Wallet) × Settled user_id dto w s t r w') x
      → Moved user_id dto w.db x.1.db
  Settled-Moves user_id dto w (ok r, w') enough (s, t, (es, et, inl p)) =
      inl (λ x. ap (λ db. bank_of db x) p.0)
  Settled-Moves user_id dto w (ok r, w') enough (s, t, (es, et, inr p)) = inr (
    s.id,
    t.id,
    ap id_in es,
    ap id_in et,
    p.apart,
    enough,
    rw (wallet_balance-found w.db s s.id p.from_lem) p.enough,
    Transferred-Moves s t dto w.clock w.db w'.db r p,
  )
  Settled-Moves user_id dto w (err e, w') enough same = inl (λ x. ap (λ db. bank_of db x) same)

  -- A transfer does nothing, or it moves the amount from the user's wallet to the recipient's.
  pub transfer-Moves :
      (user_id : Text) (dto : TransferDto) (w : World)
      → pos 0 ≤ℤ dto.amount
      → IsSound w.db
      → Moved user_id dto w.db (transfer user_id dto w).1.db
  transfer-Moves user_id dto w enough sound = elim (transfer_writes user_id dto w) [
    | inl same ↦ inl (λ x. ap (λ db. bank_of db x) same)
    | inr (ne, written) ↦ subst (Moved user_id dto w.db) (sym written) (
        Settled-Moves user_id dto w (transaction (transfer_body user_id dto) w) enough
          (transfer_body-Settled user_id dto w sound ne))
  ]
