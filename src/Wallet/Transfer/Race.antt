-- ===== src/Wallet/Transfer/Race.antt =====
-- Two requests with one key at the same time: the check of the ledger in `WalletService.transfer` is
-- made before the row locks are taken, so the later of two may pass it, wait for the locks, and find
-- the transfer made. Its transaction is started here at the locks.
use backend_assessment_chall.Prelude.{Bool-cases, arith, inl, inr, some, true, ◌+◌, ◌≡◌, ◌≢◌}
use backend_assessment_chall.Prelude.Int.{◌+ℤ◌, ◌-ℤ◌, ◌≤ℤ◌}
use backend_assessment_chall.Prelude.Text.{text_leb}
use backend_assessment_chall.Schema.{LedgerEntry, LedgerType, Wallet, entry_by_key, wallet_by_id}
use backend_assessment_chall.Wallet.{transfer_locked}
use backend_assessment_chall.Wallet.Balance.{wallet_by_id-id}
use backend_assessment_chall.Wallet.Effects.{renewed}
use backend_assessment_chall.Wallet.Queries.{create_entry, lock_wallet_by_id, update_wallet}
use backend_assessment_chall.Wallet.Transfer.{transfer_locked-Transferred, wallet_by_id-replace_ne}
use backend_assessment_chall.Wallet.Types.{Runtime, TransferDto}
use backend_assessment_chall.World.{
  World, err, fits_decimal, fits_integer, known_request, p2002, transaction,
}
use backend_assessment_chall.World.Ensures.{Atomic, Ensures-implies, transaction-Atomic}

module _ ⦃runtime : Runtime⦄ where
  module _ (sender_ref receiver_ref s t : Wallet) (dto : TransferDto) (w : World) (e : LedgerEntry)
      (found_s : wallet_by_id sender_ref.id w.db.wallets ≡ some s)
      (found_t : wallet_by_id receiver_ref.id w.db.wallets ≡ some t)
      (apart : receiver_ref.id ≢ sender_ref.id)
      (made : entry_by_key
          (sender_ref.id, dto.idempotency_key, LedgerType.transfer_out)
          w.db.entries
        ≡ some e) where
    -- A transfer that starts to lock its two rows, of two wallets that exist, when the ledger has
    -- an outgoing entry of the sender with its key already, never returns a reply, and leaves the
    -- data base as it found it: one key moves money once.
    pub transfer_locked_late :
        Atomic w.db (λ r w'. ⊥) (transaction (transfer_locked sender_ref receiver_ref dto) w)
    transfer_locked_late = transaction-Atomic (transfer_locked sender_ref receiver_ref dto) w (
        Ensures-implies (transfer_locked sender_ref receiver_ref dto w)
          (transfer_locked-Transferred sender_ref receiver_ref s t dto w found_s found_t apart)
          (λ r w' p. ground (arith, wallet_by_id-id sender_ref.id w.db.wallets s found_s)))

    -- A transfer that starts to lock its two rows, of two wallets that exist, when the ledger has
    -- an outgoing entry of the sender with its key already, ends in Prisma's P2002, if the
    -- sender's balance covers it and the new balances and versions fit their columns.
    pub transfer_locked_conflict :
        dto.amount ≤ℤ s.balance
        → fits_decimal (s.balance -ℤ dto.amount) ≡ true
        → fits_decimal (t.balance +ℤ dto.amount) ≡ true
        → fits_integer (s.version + 1) ≡ true
        → fits_integer (t.version + 1) ≡ true
        → (transaction (transfer_locked sender_ref receiver_ref dto) w).0
          ≡ err (known_request p2002)
    unfolding transfer_locked lock_wallet_by_id update_wallet create_entry
    transfer_locked_conflict enough fits_s fits_t version_s version_t =
        elim (Bool-cases (text_leb sender_ref.id receiver_ref.id)) [
          | inl ordered ↦ ground (
            arith,
            wallet_by_id-id sender_ref.id w.db.wallets s found_s,
            wallet_by_id-id receiver_ref.id w.db.wallets t found_t,
            wallet_by_id-replace_ne receiver_ref.id (renewed w.clock s (s.balance -ℤ dto.amount))
                w.db.wallets,
          )
          | inr swapped ↦ ground (
            arith,
            wallet_by_id-id sender_ref.id w.db.wallets s found_s,
            wallet_by_id-id receiver_ref.id w.db.wallets t found_t,
            wallet_by_id-replace_ne receiver_ref.id (renewed w.clock s (s.balance -ℤ dto.amount))
                w.db.wallets,
          )
        ]
