-- ===== src/Wallet.antt =====
-- src/modules/wallet/wallet.service.ts: the methods of `WalletService`. What other requests do
-- between two statements is not in these definitions; Wallet/Transfer/Race.antt starts `transfer`
-- in the middle. An amount is a number of hundredths.
pub mod Types
pub mod Queries
pub mod Provision
pub mod Reads
pub mod Reports
pub mod Statement
pub mod Balance
pub mod Effects
pub mod Posting
pub mod Deposit
pub mod Purchase
pub mod Frame
pub mod Transfer
pub mod Locking
use backend_assessment_chall.Prelude.{
  Option, [], false, if◌then◌else◌, ite, none, some, true, ℕ, ◌*◌, ◌++◌, ◌∷◌,
}
use backend_assessment_chall.Prelude.Int.{ltb_ℤ, pos, ℤ, ◌+ℤ◌, ◌-ℤ◌}
use backend_assessment_chall.Prelude.Text.{Text, codes, text_discrete, text_leb}
use backend_assessment_chall.Redis.{redis_get, redis_set}
use backend_assessment_chall.Schema.{LedgerEntry, LedgerType, Wallet, entry_by_key, wallet_by_user}
use backend_assessment_chall.Wallet.Queries.{
  create_entry, insufficient_balance, lock_wallet_by_id, lock_wallet_by_user_id,
  recipient_not_found, self_transfer, sender_not_found, update_wallet,
}
use backend_assessment_chall.Wallet.Types.{
  DepositDto, EntryResult, Runtime, TransferDto, TransferResult,
}
use backend_assessment_chall.World.{
  Action, gets, or_throw, pure, random_uuid, throw_if, transaction, ◌>>=◌, ◌>>◌,
}

abbrev pub idempotency_ttl_seconds : ℕ
idempotency_ttl_seconds = 60 * 60 * 24

abbrev pub default_ledger_limit : ℕ
default_ledger_limit = 20

abbrev pub idempotency_key_prefix : Text
idempotency_key_prefix = codes "wallet:transfer"

abbrev pub colon : Text
colon = codes ":"

-- The end of `deposit` and of `purchaseDeduct`: the new balance and the entry that explains it.
unfoldable pub post_entry : Wallet → LedgerType → ℤ → ℤ → Text → Action EntryResult
post_entry wallet kind amount new_balance reference_id = do
  updated ← update_wallet wallet.id new_balance
  now ← gets (λ w. w.clock)
  entry ← create_entry (record {
    wallet_id = wallet.id;
    kind = kind;
    amount = amount;
    balance_after = new_balance;
    reference_id = reference_id;
    created_at = now;
  })
  pure (record { wallet_id = wallet.id; balance = updated.balance; entry = entry })

unfoldable pub deposit : Text → DepositDto → Action EntryResult
deposit user_id dto = do
  reference_id ← random_uuid
  transaction (do
    wallet ← lock_wallet_by_user_id user_id
    let new_balance : ℤ = wallet.balance +ℤ dto.amount
    post_entry wallet LedgerType.deposit dto.amount new_balance reference_id)

-- The rest of `purchaseDeduct`, when the reference has not been used.
unfoldable pub deduct_locked : Wallet → ℤ → Text → Action EntryResult
deduct_locked wallet amount reference_id = do
  throw_if (ltb_ℤ wallet.balance amount) insufficient_balance
  let new_balance : ℤ = wallet.balance -ℤ amount
  post_entry wallet LedgerType.purchase (pos 0 -ℤ amount) new_balance reference_id

unfoldable pub purchase_deduct : Text → ℤ → Text → Action EntryResult
purchase_deduct user_id amount reference_id = transaction (do
  wallet ← lock_wallet_by_user_id user_id
  existing ← gets (λ w. entry_by_key (wallet.id, reference_id, LedgerType.purchase) w.db.entries)
  elim existing [
    | some entry ↦
        pure (record { wallet_id = wallet.id; balance = entry.balance_after; entry = entry })
    | none ↦ deduct_locked wallet amount reference_id
  ])

-- `[a, b].sort()`
unfoldable pub sort_pair : Text → Text → Text × Text
sort_pair a b = if text_leb a b then (a, b) else (b, a)

unfoldable pub transfer_key : Text → Text → Text
transfer_key user_id key = idempotency_key_prefix ++ (colon ++ (user_id ++ (colon ++ key)))

module _ ⦃runtime : Runtime⦄ where
  open runtime use {decimal_to_string, stringify, parse}

  -- The transfer from the row locks on.
  unfoldable pub transfer_locked : Wallet → Wallet → TransferDto → Action TransferResult
  unfolding sort_pair
  transfer_locked sender_ref receiver_ref dto = do
    let ids : Text × Text = sort_pair sender_ref.id receiver_ref.id
    first ← lock_wallet_by_id ids.0
    second ← lock_wallet_by_id ids.1
    let sender : Wallet = ite (text_discrete first.id sender_ref.id) first second
    let receiver : Wallet = ite (text_discrete first.id receiver_ref.id) first second
    throw_if (ltb_ℤ sender.balance dto.amount) insufficient_balance
    let new_sender_balance : ℤ = sender.balance -ℤ dto.amount
    let new_receiver_balance : ℤ = receiver.balance +ℤ dto.amount
    update_wallet sender.id new_sender_balance
    update_wallet receiver.id new_receiver_balance
    now ← gets (λ w. w.clock)
    create_entry (record {
      wallet_id = sender.id;
      kind = LedgerType.transfer_out;
      amount = pos 0 -ℤ dto.amount;
      balance_after = new_sender_balance;
      reference_id = dto.idempotency_key;
      created_at = now;
    })
    create_entry (record {
      wallet_id = receiver.id;
      kind = LedgerType.transfer_in;
      amount = dto.amount;
      balance_after = new_receiver_balance;
      reference_id = dto.idempotency_key;
      created_at = now;
    })
    pure (record {
      from_wallet_id = sender.id;
      to_wallet_id = receiver.id;
      amount = decimal_to_string dto.amount;
      from_balance = decimal_to_string new_sender_balance;
      to_balance = some (decimal_to_string new_receiver_balance);
      reference_id = dto.idempotency_key;
      replayed = false;
    })

  -- The reply to a transfer that the ledger has already.
  unfoldable pub replay_transfer : Wallet → Wallet → LedgerEntry → Text → TransferResult
  replay_transfer sender_ref receiver_ref existing key = record {
    from_wallet_id = sender_ref.id;
    to_wallet_id = receiver_ref.id;
    amount = decimal_to_string (pos 0 -ℤ existing.amount);
    from_balance = decimal_to_string existing.balance_after;
    to_balance = none;
    reference_id = key;
    replayed = true;
  }

  -- The body of the transaction of `transfer`.
  unfoldable pub transfer_body : Text → TransferDto → Action TransferResult
  transfer_body user_id dto = do
    sender ← gets (λ w. wallet_by_user user_id w.db.wallets)
    receiver ← gets (λ w. wallet_by_user dto.to_user_id w.db.wallets)
    sender_ref ← or_throw sender sender_not_found
    receiver_ref ← or_throw receiver recipient_not_found
    existing_out ← gets (λ w.
        entry_by_key (sender_ref.id, dto.idempotency_key, LedgerType.transfer_out) w.db.entries)
    elim existing_out [
      | some existing ↦ pure (replay_transfer sender_ref receiver_ref existing dto.idempotency_key)
      | none ↦ transfer_locked sender_ref receiver_ref dto
    ]

  -- `transfer` when Redis has no reply for the key.
  unfoldable pub transfer_uncached : Text → TransferDto → Action TransferResult
  transfer_uncached user_id dto = do
    result ← transaction (transfer_body user_id dto)
    redis_set (transfer_key user_id dto.idempotency_key) (stringify result) idempotency_ttl_seconds
    pure result

  -- What Redis holds is used if it is not the empty text.
  unfoldable pub transfer_cached : Text → TransferDto → Option Text → Action TransferResult
  transfer_cached user_id dto none = transfer_uncached user_id dto
  transfer_cached user_id dto (some []) = transfer_uncached user_id dto
  transfer_cached user_id dto (some (c ∷ cs)) = pure (parse (c ∷ cs))

  unfoldable pub transfer : Text → TransferDto → Action TransferResult
  transfer user_id dto = do
    throw_if (ite (text_discrete dto.to_user_id user_id) true false) self_transfer
    cached ← redis_get (transfer_key user_id dto.idempotency_key)
    transfer_cached user_id dto cached
