-- ===== src/Wallet/Effects.antt =====
-- What the queries of Wallet/Queries.antt do when they return.
use backend_assessment_chall.Prelude.{
  Option-cases, [], arith, inl, inr, none, some, ℕ, ◌++◌, ◌+◌, ◌∷◌, ◌≡◌,
}
use backend_assessment_chall.Prelude.Int.{ℤ}
use backend_assessment_chall.Prelude.Table.{find_by-key}
use backend_assessment_chall.Prelude.Text.{Text, text_discrete}
use backend_assessment_chall.Schema.{
  LedgerEntry, Wallet, entry_by_key, entry_key, replace_wallet, wallet_by_id, wallet_by_user,
}
use backend_assessment_chall.Wallet.Queries.{
  create_entry, lock_wallet_by_id, lock_wallet_by_user_id, update_wallet,
}
use backend_assessment_chall.World.{World}
use backend_assessment_chall.World.Ensures.{Ensures}

-- The row that `update_wallet` writes.
abbrev pub renewed : ℕ → Wallet → ℤ → Wallet
renewed now wallet balance = record wallet {
  balance = balance;
  version = wallet.version + 1;
  updated_at = now;
}

pub lock_wallet_by_id-effect :
    (id : Text) (w : World)
    → Ensures
        (λ wallet w'.
          (wallet_by_id id w.db.wallets ≡ some wallet)
          × (w' ≡ record w { locks = w.locks ++ (id ∷ []) }))
        (lock_wallet_by_id id w)
unfolding lock_wallet_by_id
lock_wallet_by_id-effect id w = ground arith

pub lock_wallet_by_user_id-effect :
    (user_id : Text) (w : World)
    → Ensures
        (λ wallet w'.
          (wallet_by_id wallet.id w.db.wallets ≡ some wallet)
          × (w' ≡ record w { locks = w.locks ++ (wallet.id ∷ []) }))
        (lock_wallet_by_user_id user_id w)
unfolding lock_wallet_by_user_id lock_wallet_by_id wallet_by_id
lock_wallet_by_user_id-effect user_id w =
    elim (Option-cases (wallet_by_user user_id w.db.wallets)) [
      | inl missing ↦ ground arith
      | inr (ref, found) ↦ elim (Option-cases (wallet_by_id ref.id w.db.wallets)) [
        | inl missing ↦ ground arith
        | inr (wallet, locked) ↦
            ground (arith, find_by-key text_discrete (λ r. r.id) ref.id w.db.wallets wallet)
      ]
    ]

pub update_wallet-effect :
    (id : Text) (balance : ℤ) (wallet : Wallet) (w : World)
    → wallet_by_id id w.db.wallets ≡ some wallet
    → Ensures
        (λ new w'.
          (new ≡ renewed w.clock wallet balance)
          × (w' ≡ record w { db = record (w.db) { wallets = replace_wallet id new w.db.wallets } }))
        (update_wallet id balance w)
unfolding update_wallet
update_wallet-effect id balance wallet w found = ground arith

pub create_entry-effect :
    (entry : LedgerEntry) (w : World)
    → Ensures
        (λ created w'.
          (created ≡ entry)
          × (entry_by_key (entry_key entry) w.db.entries ≡ none)
          × (w' ≡ record w { db = record (w.db) { entries = entry ∷ w.db.entries } }))
        (create_entry entry w)
unfolding create_entry
create_entry-effect entry w = ground arith
