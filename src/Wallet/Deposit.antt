-- ===== src/Wallet/Deposit.antt =====
-- `WalletService.deposit`, on every branch.
use backend_assessment_chall.Prelude.{Option-cases, [], arith, inl, inr, some, ◌++◌, ◌+◌, ◌∷◌, ◌≡◌}
use backend_assessment_chall.Prelude.Int.{add_nonneg, pos, ℤ, ◌+ℤ◌, ◌≤ℤ◌}
use backend_assessment_chall.Prelude.Text.{Text}
use backend_assessment_chall.Schema.{LedgerType, Wallet, wallet_by_id, wallet_by_user}
use backend_assessment_chall.Wallet.{deposit}
use backend_assessment_chall.Wallet.Balance.{IsSound, wallet_by_id-id}
use backend_assessment_chall.Wallet.Posting.{
  Posted, Posted-keeps, Posted-nonneg, id_in, post_entry-Posted,
}
use backend_assessment_chall.Wallet.Queries.{lock_wallet_by_id, lock_wallet_by_user_id}
use backend_assessment_chall.Wallet.Types.{DepositDto, EntryResult}
use backend_assessment_chall.World.{Result, World, err, ok, random_uuid}
use backend_assessment_chall.World.Ensures.{Atomic, Atomic-implies}

-- The user's wallet got the amount, under a new reference.
abbrev pub Deposited : Text → ℤ → World → Wallet → EntryResult → World → Type 0
Deposited user_id amount w wallet r w' =
    (id_in (wallet_by_user user_id w.db.wallets) ≡ some r.wallet_id)
    × Posted wallet w.clock LedgerType.deposit amount (w.uuids w.drawn) w.db r w'.db

deposit_found :
    (user_id : Text) (dto : DepositDto) (w : World) (ref wallet : Wallet)
    → wallet_by_user user_id w.db.wallets ≡ some ref
    → wallet_by_id ref.id w.db.wallets ≡ some wallet
    → Atomic w.db (Deposited user_id dto.amount w wallet) (deposit user_id dto w)
unfolding deposit random_uuid lock_wallet_by_user_id lock_wallet_by_id
deposit_found user_id dto w ref wallet e found = ground (
  arith,
  wallet_by_id-id ref.id w.db.wallets wallet,
  post_entry-Posted wallet LedgerType.deposit dto.amount (wallet.balance +ℤ dto.amount)
      (w.uuids w.drawn) (record w { drawn = w.drawn + 1; locks = w.locks ++ (ref.id ∷ []) }),
)

-- A deposit that throws leaves the data base as it was. One that returns has put the amount on the
-- balance of the user's wallet, which is the one of the reply, and has added one DEPOSIT entry of
-- that amount under the reference that was drawn; the wallet row is otherwise as before but for its
-- version, which is one more, and its time of update.
pub deposit-posts :
    (user_id : Text) (dto : DepositDto) (w : World)
    → Atomic w.db
        (λ r w'. (wallet : Wallet) × Deposited user_id dto.amount w wallet r w')
        (deposit user_id dto w)
unfolding deposit random_uuid lock_wallet_by_user_id lock_wallet_by_id
deposit-posts user_id dto w = elim (Option-cases (wallet_by_user user_id w.db.wallets)) [
  | inl missing ↦ ground arith
  | inr (ref, e) ↦ elim (Option-cases (wallet_by_id ref.id w.db.wallets)) [
    | inl missing ↦ ground arith
    | inr (wallet, found) ↦
        Atomic-implies w.db _ _ (deposit user_id dto w)
          (deposit_found user_id dto w ref wallet e found) (λ r w' p. (wallet, p))
  ]
]

deposit_outcome-IsSound :
    (user_id : Text) (amount : ℤ) (w : World) (x : Result EntryResult × World)
    → pos 0 ≤ℤ amount
    → IsSound w.db
    → Atomic w.db (λ r w'. (wallet : Wallet) × Deposited user_id amount w wallet r w') x
    → IsSound x.1.db
deposit_outcome-IsSound user_id amount w (ok r, w') enough sound (wallet, p) =
    Posted-keeps p.1 (add_nonneg wallet.balance amount (Posted-nonneg p.1 sound) enough) sound
deposit_outcome-IsSound user_id amount w (err e, w') enough sound same = rw same sound

-- A deposit of an amount that is not negative keeps the ledger invariant, however it ends.
pub deposit-IsSound :
    (user_id : Text) (dto : DepositDto) (w : World)
    → pos 0 ≤ℤ dto.amount
    → IsSound w.db
    → IsSound (deposit user_id dto w).1.db
deposit-IsSound user_id dto w enough sound =
    deposit_outcome-IsSound user_id dto.amount w (deposit user_id dto w) enough sound
      (deposit-posts user_id dto w)
