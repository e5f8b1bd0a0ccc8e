-- ===== src/Wallet/Purchase.antt =====
-- `WalletService.purchaseDeduct`, on every branch.
use backend_assessment_chall.Prelude.{
  Option-cases, [], arith, inl, inr, some, ◌++◌, ◌∙◌, ◌∷◌, ◌≡◌, ◌⊎◌,
}
use backend_assessment_chall.Prelude.Int.{pos, sub-eq-add_neg, sub_nonneg, ℤ, ◌-ℤ◌, ◌≤ℤ◌}
use backend_assessment_chall.Prelude.Text.{Text}
use backend_assessment_chall.Schema.{
  LedgerEntry, LedgerType, Wallet, entry_by_key, wallet_by_id, wallet_by_user,
}
use backend_assessment_chall.Wallet.{deduct_locked, purchase_deduct}
use backend_assessment_chall.Wallet.Balance.{IsSound, wallet_by_id-id}
use backend_assessment_chall.Wallet.Effects.{renewed}
use backend_assessment_chall.Wallet.Posting.{
  Posted, Posted-entry, Posted-keeps, Posted-user, Posted-wallet, id_in, post_entry-Posted,
}
use backend_assessment_chall.Wallet.Queries.{lock_wallet_by_id, lock_wallet_by_user_id}
use backend_assessment_chall.Wallet.Types.{EntryResult}
use backend_assessment_chall.World.{Result, World, err, ok}
use backend_assessment_chall.World.Ensures.{Atomic, Atomic-implies, Ensures}

deduct_locked-Posted :
    (wallet : Wallet) (amount : ℤ) (reference : Text) (w : World)
    → wallet_by_id wallet.id w.db.wallets ≡ some wallet
    → Ensures
        (λ r w'.
          Posted wallet w.clock LedgerType.purchase (pos 0 -ℤ amount) reference w.db r w'.db
          × (amount ≤ℤ wallet.balance))
        (deduct_locked wallet amount reference w)
unfolding deduct_locked
deduct_locked-Posted wallet amount reference w found = ground (
  arith,
  sub-eq-add_neg wallet.balance amount,
  post_entry-Posted wallet LedgerType.purchase (pos 0 -ℤ amount) (wallet.balance -ℤ amount)
      reference w,
)

-- What `purchaseDeduct` has done when it returns: it found the purchase in the ledger of the user's
-- wallet and changed nothing, or it took the amount, which the wallet covered.
abbrev pub Deducted : Text → ℤ → Text → World → Wallet → EntryResult → World → Type 0
Deducted user_id amount reference w wallet r w' =
    (id_in (wallet_by_user user_id w.db.wallets) ≡ some r.wallet_id)
    × (wallet_by_id r.wallet_id w.db.wallets ≡ some wallet)
    × (((w'.db ≡ w.db)
          × (entry_by_key (r.wallet_id, reference, LedgerType.purchase) w.db.entries ≡ some r.entry)
          × (r.balance ≡ r.entry.balance_after))
        ⊎ (Posted wallet w.clock LedgerType.purchase (pos 0 -ℤ amount) reference w.db r w'.db
            × (amount ≤ℤ wallet.balance)))

purchase_found :
    (user_id : Text) (amount : ℤ) (reference : Text) (w : World) (ref wallet : Wallet)
    → wallet_by_user user_id w.db.wallets ≡ some ref
    → wallet_by_id ref.id w.db.wallets ≡ some wallet
    → Atomic w.db
        (Deducted user_id amount reference w wallet)
        (purchase_deduct user_id amount reference w)
unfolding purchase_deduct lock_wallet_by_user_id lock_wallet_by_id
purchase_found user_id amount reference w ref wallet e found = ground (
  arith,
  wallet_by_id-id ref.id w.db.wallets wallet,
  deduct_locked-Posted wallet amount reference (record w { locks = w.locks ++ (ref.id ∷ []) }),
)

-- A deduction that throws leaves the data base as it was. One that returns has either found the
-- purchase of this reference in the ledger of the user's wallet, replied with it and changed
-- nothing, or has taken the amount from that wallet, which held at least as much, and added one
-- PURCHASE entry of minus the amount under the reference.
pub purchase_deduct-posts :
    (user_id : Text) (amount : ℤ) (reference : Text) (w : World)
    → Atomic w.db
        (λ r w'. (wallet : Wallet) × Deducted user_id amount reference w wallet r w')
        (purchase_deduct user_id amount reference w)
unfolding purchase_deduct lock_wallet_by_user_id lock_wallet_by_id
purchase_deduct-posts user_id amount reference w =
    elim (Option-cases (wallet_by_user user_id w.db.wallets)) [
      | inl missing ↦ ground arith
      | inr (ref, e) ↦ elim (Option-cases (wallet_by_id ref.id w.db.wallets)) [
        | inl missing ↦ ground arith
        | inr (wallet, found) ↦
            Atomic-implies w.db _ _ (purchase_deduct user_id amount reference w)
              (purchase_found user_id amount reference w ref wallet e found) (λ r w' p. (wallet, p))
      ]
    ]

purchase_outcome-IsSound :
    (user_id : Text) (amount : ℤ) (reference : Text) (w : World) (x : Result EntryResult × World)
    → IsSound w.db
    → Atomic w.db (λ r w'. (wallet : Wallet) × Deducted user_id amount reference w wallet r w') x
    → IsSound x.1.db
purchase_outcome-IsSound user_id amount reference w (ok r, w') sound (wallet, (own, found, inl p)) =
    rw p.0 sound
purchase_outcome-IsSound user_id amount reference w (ok r, w') sound (wallet, (own, found, inr p)) =
    Posted-keeps p.0 (sub_nonneg wallet.balance amount p.1) sound
purchase_outcome-IsSound user_id amount reference w (err e, w') sound same = rw same sound

-- A deduction keeps the ledger invariant, however it ends and whatever the amount: no balance
-- becomes negative.
pub purchase_deduct-IsSound :
    (user_id : Text) (amount : ℤ) (reference : Text) (w : World)
    → IsSound w.db
    → IsSound (purchase_deduct user_id amount reference w).1.db
purchase_deduct-IsSound user_id amount reference w sound =
    purchase_outcome-IsSound user_id amount reference w (purchase_deduct user_id amount reference w)
      sound (purchase_deduct-posts user_id amount reference w)

-- A deduction of a reference that the ledger of the user's wallet has is a replay: it returns the
-- entry that is there, whatever amount is asked for, and leaves the data base alone.
pub purchase_deduct_replays :
    (user_id id : Text) (amount : ℤ) (reference : Text) (w : World) (wallet : Wallet)
    (entry : LedgerEntry)
    → id_in (wallet_by_user user_id w.db.wallets) ≡ some id
    → wallet_by_id id w.db.wallets ≡ some wallet
    → entry_by_key (id, reference, LedgerType.purchase) w.db.entries ≡ some entry
    → let (r, w') = purchase_deduct user_id amount reference w in
      (r ≡ ok (record { wallet_id = id; balance = entry.balance_after; entry = entry }))
      × (w'.db ≡ w.db)
unfolding purchase_deduct lock_wallet_by_user_id lock_wallet_by_id
purchase_deduct_replays user_id id amount reference w wallet entry own found old =
    ground (arith, wallet_by_id-id id w.db.wallets wallet)

-- After the deduction the ledger of the user's wallet has it.
Deducted-recorded :
    (user_id : Text) (amount : ℤ) (reference : Text) (w w' : World) (wallet : Wallet)
    (r : EntryResult)
    → Deducted user_id amount reference w wallet r w'
    → (now : Wallet) × (id_in (wallet_by_user user_id w'.db.wallets) ≡ some r.wallet_id)
      × (wallet_by_id r.wallet_id w'.db.wallets ≡ some now)
      × (entry_by_key (r.wallet_id, reference, LedgerType.purchase) w'.db.entries ≡ some r.entry)
Deducted-recorded user_id amount reference w w' wallet r (own, found, inl p) =
    (wallet, ground arith, ground arith, ground arith)
Deducted-recorded user_id amount reference w w' wallet r (own, found, inr (p, enough)) =
    (renewed w.clock wallet r.balance, Posted-user p user_id ∙ own, Posted-wallet p, Posted-entry p)

-- After a deduction has returned, the same user and reference, in the state that it left, get the
-- same entry, whatever amount is asked for, and the data base stays as it is.
pub purchase_deduct-again :
    (user_id : Text) (amount amount' : ℤ) (reference : Text) (w w' : World) (r : EntryResult)
    → purchase_deduct user_id amount reference w ≡ (ok r, w')
    → let (again, w'') = purchase_deduct user_id amount' reference w' in
      (again
        ≡ ok (record { wallet_id = r.wallet_id; balance = r.entry.balance_after; entry = r.entry }))
      × (w''.db ≡ w'.db)
purchase_deduct-again user_id amount amount' reference w w' r done =
    let (wallet, p) = rw done at (purchase_deduct-posts user_id amount reference w) in
    let (now, own, found, old) = Deducted-recorded user_id amount reference w w' wallet r p in
    purchase_deduct_replays user_id r.wallet_id amount' reference w' now r.entry own found old
