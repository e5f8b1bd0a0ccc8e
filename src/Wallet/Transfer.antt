-- ===== src/Wallet/Transfer.antt =====
-- `WalletService.transfer` from the row locks on (`transfer_locked`): what has moved when it
-- returns.
pub mod Sound
pub mod Settlement
pub mod Again
pub mod Locks
pub mod Race
pub mod Replay
use backend_assessment_chall.Prelude.{
  Bool-cases, List, arith, false, inl, inr, none, refl, some, ℕ, ◌≡◌, ◌≢◌,
}
use backend_assessment_chall.Prelude.Int.{pos, ◌+ℤ◌, ◌-ℤ◌, ◌≤ℤ◌}
use backend_assessment_chall.Prelude.Table.{find_by-update_by_ne}
use backend_assessment_chall.Prelude.Text.{Text, text_discrete, text_leb}
use backend_assessment_chall.Schema.{
  Database, LedgerEntry, LedgerType, Wallet, entry_by_key, replace_wallet, wallet_by_id,
}
use backend_assessment_chall.Wallet.{transfer_locked}
use backend_assessment_chall.Wallet.Balance.{id_of, posted, wallet_by_id-id}
use backend_assessment_chall.Wallet.Effects.{renewed}
use backend_assessment_chall.Wallet.Posting.{entry_for}
use backend_assessment_chall.Wallet.Queries.{create_entry, lock_wallet_by_id, update_wallet}
use backend_assessment_chall.Wallet.Types.{Runtime, TransferDto, TransferResult}
use backend_assessment_chall.World.{World}
use backend_assessment_chall.World.Ensures.{Ensures}

abbrev pub out_entry : Wallet → TransferDto → ℕ → LedgerEntry
out_entry s dto now =
    entry_for s LedgerType.transfer_out (pos 0 -ℤ dto.amount) (s.balance -ℤ dto.amount)
      dto.idempotency_key now

abbrev pub in_entry : Wallet → TransferDto → ℕ → LedgerEntry
in_entry t dto now =
    entry_for t LedgerType.transfer_in dto.amount (t.balance +ℤ dto.amount) dto.idempotency_key now

-- The data base with the amount taken from `s` and given to `t`.
abbrev pub moved : Wallet → Wallet → TransferDto → ℕ → Database → Database
moved s t dto now before =
    posted (renewed now t (t.balance +ℤ dto.amount)) (in_entry t dto now)
      (posted (renewed now s (s.balance -ℤ dto.amount)) (out_entry s dto now) before)

pub wallet_by_id-replace_ne :
    (id : Text) (new : Wallet) (wallets : List Wallet)
    → id ≢ new.id
    → wallet_by_id id (replace_wallet new.id new wallets) ≡ wallet_by_id id wallets
unfolding wallet_by_id replace_wallet
wallet_by_id-replace_ne id new wallets ne =
    find_by-update_by_ne text_discrete id_of id new.id new wallets ne refl

module _ ⦃runtime : Runtime⦄ where
  open runtime use {decimal_to_string}

  abbrev pub transfer_reply : Wallet → Wallet → TransferDto → TransferResult
  transfer_reply s t dto = record {
    from_wallet_id = s.id;
    to_wallet_id = t.id;
    amount = decimal_to_string dto.amount;
    from_balance = decimal_to_string (s.balance -ℤ dto.amount);
    to_balance = some (decimal_to_string (t.balance +ℤ dto.amount));
    reference_id = dto.idempotency_key;
    replayed = false;
  }

  -- A transfer from `s` to `t` was made: `s` covered it and its key was new.
  pub record Transferred (s t : Wallet) (dto : TransferDto) (now : ℕ) (before : Database)
      (r : TransferResult) (after : Database) : Type 0 where
    pub from_lem : wallet_by_id s.id before.wallets ≡ some s
    pub to_lem : wallet_by_id t.id before.wallets ≡ some t
    pub apart : t.id ≢ s.id
    pub enough : dto.amount ≤ℤ s.balance
    pub fresh :
        entry_by_key (s.id, dto.idempotency_key, LedgerType.transfer_out) before.entries ≡ none
    pub reply_lem : r ≡ transfer_reply s t dto
    pub after_lem : after ≡ moved s t dto now before

  module _ (sender_ref receiver_ref s t : Wallet) (dto : TransferDto) (w : World)
      (found_s : wallet_by_id sender_ref.id w.db.wallets ≡ some s)
      (found_t : wallet_by_id receiver_ref.id w.db.wallets ≡ some t)
      (apart : receiver_ref.id ≢ sender_ref.id) where
    pub transfer_locked-Transferred :
        Ensures
          (λ r w'. Transferred s t dto w.clock w.db r w'.db)
          (transfer_locked sender_ref receiver_ref dto w)
    unfolding transfer_locked lock_wallet_by_id update_wallet create_entry
    transfer_locked-Transferred = elim (Bool-cases (text_leb sender_ref.id receiver_ref.id)) [
      | inl ordered ↦ ground (
        arith,
        wallet_by_id-id sender_ref.id w.db.wallets s found_s,
        wallet_by_id-id receiver_ref.id w.db.wallets t found_t,
        wallet_by_id-replace_ne receiver_ref.id (renewed w.clock s (s.balance -ℤ dto.amount))
            w.db.wallets,
      )
      | inr swapped ↦ ground (
        arith,
        wallet_by_id-id sender_ref.id w.db.wallets s found_s,
        wallet_by_id-id receiver_ref.id w.db.wallets t found_t,
        wallet_by_id-replace_ne receiver_ref.id (renewed w.clock s (s.balance -ℤ dto.amount))
            w.db.wallets,
      )
    ]
