-- ===== src/Api/Replies/Money.antt =====
-- What the operations of src/modules/wallet/wallet.service.ts throw.
use backend_assessment_chall.Prelude.{[], arith, ℕ, ◌∷◌}
use backend_assessment_chall.Api.Replies.{Throws}
use backend_assessment_chall.Prelude.Int.{ℤ}
use backend_assessment_chall.Prelude.Text.{Text}
use backend_assessment_chall.Redis.{redis_get, redis_set}
use backend_assessment_chall.Schema.{Wallet}
use backend_assessment_chall.Wallet.{
  deduct_locked, deposit, post_entry, purchase_deduct, transfer, transfer_body, transfer_cached,
  transfer_locked, transfer_uncached,
}
use backend_assessment_chall.Wallet.Queries.{
  create_entry, lock_wallet_by_id, lock_wallet_by_user_id, update_wallet,
}
use backend_assessment_chall.Wallet.Reads.{get_me, get_me_from_end}
use backend_assessment_chall.Wallet.Types.{DepositDto, Runtime, TransferDto}
use backend_assessment_chall.World.{World, random_uuid}

pub update_wallet-Throws :
    (id : Text) (balance : ℤ) (w : World) → Throws [] (update_wallet id balance w)
unfolding update_wallet
update_wallet-Throws id balance w = ground arith

pub deposit-Throws :
    (user_id : Text) (dto : DepositDto) (w : World) → Throws (404 ∷ []) (deposit user_id dto w)
unfolding deposit random_uuid lock_wallet_by_user_id lock_wallet_by_id post_entry update_wallet
    create_entry
deposit-Throws user_id dto w = ground arith

pub purchase_deduct-Throws :
    (user_id : Text) (amount : ℤ) (reference : Text) (w : World)
    → Throws (400 ∷ 404 ∷ []) (purchase_deduct user_id amount reference w)
unfolding purchase_deduct deduct_locked lock_wallet_by_user_id lock_wallet_by_id post_entry
    update_wallet create_entry
purchase_deduct-Throws user_id amount reference w = ground arith

pub get_me-Throws : (user_id : Text) (n : ℕ) (w : World) → Throws (404 ∷ []) (get_me user_id n w)
unfolding get_me
get_me-Throws user_id n w = ground arith

pub get_me_from_end-Throws :
    (user_id : Text) (n : ℕ) (w : World) → Throws (404 ∷ []) (get_me_from_end user_id n w)
unfolding get_me_from_end
get_me_from_end-Throws user_id n w = ground arith

module _ ⦃runtime : Runtime⦄ where
  transfer_locked-Throws :
      (sender_ref receiver_ref : Wallet) (dto : TransferDto) (w : World)
      → Throws (400 ∷ 404 ∷ []) (transfer_locked sender_ref receiver_ref dto w)
  unfolding transfer_locked lock_wallet_by_id update_wallet create_entry
  transfer_locked-Throws sender_ref receiver_ref dto w = ground arith

  transfer_body-Throws :
      (user_id : Text) (dto : TransferDto) (w : World)
      → Throws (400 ∷ 404 ∷ []) (transfer_body user_id dto w)
  unfolding transfer_body
  transfer_body-Throws user_id dto w = grind (arith, transfer_locked-Throws)

  pub transfer-Throws :
      (user_id : Text) (dto : TransferDto) (w : World)
      → Throws (400 ∷ 404 ∷ []) (transfer user_id dto w)
  unfolding transfer transfer_cached transfer_uncached redis_get redis_set
  transfer-Throws user_id dto w = grind (arith, transfer_body-Throws)
