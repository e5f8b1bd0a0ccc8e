-- ===== src/Wallet/Transfer/Sound.antt =====
-- The ledger invariant and the sum of all balances over `WalletService.transfer`.
use backend_assessment_chall.Prelude.{List, [], arith, refl, some, ℕ, ◌∙◌, ◌∷◌, ◌≡◌}
use backend_assessment_chall.Prelude.Int.{
  add_nonneg, int_laws, pos, sub-eq-add_neg, sub_nonneg, ℤ, ◌+ℤ◌, ◌-ℤ◌, ◌≤ℤ◌,
}
use backend_assessment_chall.Prelude.Table.{find_by, update_by}
use backend_assessment_chall.Schema.{Database, Wallet, replace_wallet, wallet_by_id}
use backend_assessment_chall.Wallet.Balance.{IsSound, posted, posted-IsSound, wallet_balance-found}
use backend_assessment_chall.Wallet.Effects.{renewed}
use backend_assessment_chall.Wallet.Transfer.{
  Transferred, in_entry, out_entry, wallet_by_id-replace_ne,
}
use backend_assessment_chall.Wallet.Types.{Runtime, TransferDto, TransferResult}

-- The sum of the balances of all wallets.
unfoldable pub total_balance : List Wallet → ℤ
total_balance [] = pos 0
total_balance (w ∷ ws) = w.balance +ℤ total_balance ws

pub total_balance-replace :
    (old new : Wallet) (wallets : List Wallet)
    → wallet_by_id new.id wallets ≡ some old
    → total_balance (replace_wallet new.id new wallets) +ℤ old.balance
      ≡ total_balance wallets +ℤ new.balance
unfolding total_balance wallet_by_id replace_wallet find_by update_by
total_balance-replace old new [] found = ground arith
total_balance-replace old new (x ∷ xs) found = grind (int_laws, total_balance-replace old new xs)

swap_sums :
    (before middle after s t amount : ℤ)
    → middle +ℤ s ≡ before +ℤ (s -ℤ amount)
    → after +ℤ t ≡ middle +ℤ (t +ℤ amount)
    → after ≡ before
swap_sums before middle after s t amount p q = grind int_laws

module _ ⦃runtime : Runtime⦄ where
  -- A transfer moves money and makes none: the sum of all balances stays the same.
  pub Transferred-total :
      (s t : Wallet) (dto : TransferDto) (now : ℕ) (before after : Database) (r : TransferResult)
      → Transferred s t dto now before r after
      → total_balance after.wallets ≡ total_balance before.wallets
  Transferred-total s t dto now before after r p =
      let s' : Wallet = renewed now s (s.balance -ℤ dto.amount) in
      let t' : Wallet = renewed now t (t.balance +ℤ dto.amount) in
      let middle : List Wallet = replace_wallet s.id s' before.wallets in
      rw p.after_lem (
        swap_sums (total_balance before.wallets) (total_balance middle) _ s.balance t.balance
          dto.amount (total_balance-replace s s' before.wallets p.from_lem)
          (total_balance-replace t t' middle
            (wallet_by_id-replace_ne t.id s' before.wallets p.apart ∙ p.to_lem)))

  pub Transferred-IsSound :
      (s t : Wallet) (dto : TransferDto) (now : ℕ) (before after : Database) (r : TransferResult)
      → pos 0 ≤ℤ dto.amount
      → IsSound before
      → Transferred s t dto now before r after
      → IsSound after
  Transferred-IsSound s t dto now before after r nonneg sound p =
      let s' : Wallet = renewed now s (s.balance -ℤ dto.amount) in
      let t' : Wallet = renewed now t (t.balance +ℤ dto.amount) in
      let taken : IsSound (posted s' (out_entry s dto now) before) =
        posted-IsSound before s s' (out_entry s dto now) sound p.from_lem refl
          (sub-eq-add_neg s.balance dto.amount)
          (rw sub-eq-add_neg (sub_nonneg s.balance dto.amount p.enough)) in
      rw p.after_lem (
        posted-IsSound (posted s' (out_entry s dto now) before) t t' (in_entry t dto now) taken
          (wallet_by_id-replace_ne t.id s' before.wallets p.apart ∙ p.to_lem) refl refl
          (add_nonneg t.balance dto.amount
            (rw (← wallet_balance-found before t t.id p.to_lem) (sound.nonneg t.id)) nonneg))
