-- ===== src/History/Backed.antt =====
-- The sum of all balances against the ledger, in every state that is reached.
use backend_assessment_chall.Prelude.{[], inl, inr, refl, subst, sym, ℕ, ◌≡◌}
use backend_assessment_chall.Auth.{register}
use backend_assessment_chall.Auth.Registration.{register-IsSound, register_writes}
use backend_assessment_chall.Auth.Types.{Crypto, JwtConfig, RegisterDto}
use backend_assessment_chall.Bank.Backing.{
  IsBacked, Posted-backed, Transferred-backed, external_sum,
}
use backend_assessment_chall.FlashSale.{create_event}
use backend_assessment_chall.FlashSale.Creation.{Created, create_event-creates}
use backend_assessment_chall.FlashSale.Money.{SameMoney, SameMoney-IsSound, purchase_keeps}
use backend_assessment_chall.FlashSale.Types.{CreateFlashSaleEventDto, Environment}
use backend_assessment_chall.History.{
  Reachable, Step, after, creates_event, deposits, logs_in, logs_out, opens, purchases, refreshes,
  registers, time_passes, transfers,
}
use backend_assessment_chall.History.Reached.{
  create_event-IsSound, empty-IsSound, login-db, logout-db, refresh-db,
}
use backend_assessment_chall.Prelude.Int.{int_laws, pos, ℤ, ◌≤ℤ◌}
use backend_assessment_chall.Prelude.Text.{Text}
use backend_assessment_chall.Schema.{Database, FlashSaleEvent, Wallet}
use backend_assessment_chall.Wallet.{deposit, purchase_deduct, transfer, transfer_body}
use backend_assessment_chall.Wallet.Balance.{IsSound}
use backend_assessment_chall.Wallet.Deposit.{Deposited, deposit-IsSound, deposit-posts}
use backend_assessment_chall.Wallet.Purchase.{
  Deducted, purchase_deduct-IsSound, purchase_deduct-posts,
}
use backend_assessment_chall.Wallet.Transfer.Again.{transfer-IsSound, transfer_writes}
use backend_assessment_chall.Wallet.Transfer.Settlement.{Settled, transfer_body-Settled}
use backend_assessment_chall.Wallet.Transfer.Sound.{total_balance}
use backend_assessment_chall.Wallet.Types.{
  DepositDto, EntryResult, Runtime, TransferDto, TransferResult,
}
use backend_assessment_chall.World.{Result, World, err, ok, transaction}
use backend_assessment_chall.World.Ensures.{Atomic, Outcome}

empty-backed : total_balance [] ≡ external_sum []
unfolding total_balance external_sum
empty-backed = refl

same_db : {before after : Database} → after ≡ before → IsBacked before → IsBacked after
same_db same backed = subst IsBacked (sym same) backed

deposit_outcome-IsBacked :
    (user_id : Text) (dto : DepositDto) (w : World) (x : Result EntryResult × World)
    → IsSound x.1.db
    → IsBacked w.db
    → Atomic w.db (λ r w'. (wallet : Wallet) × Deposited user_id dto.amount w wallet r w') x
    → IsBacked x.1.db
deposit_outcome-IsBacked user_id dto w (ok r, w') sound before (wallet, (own, p)) = record {
  sound = sound;
  backed = Posted-backed p refl before.backed;
}
deposit_outcome-IsBacked user_id dto w (err e, w') sound before same = same_db same before

deduct_outcome-IsBacked :
    (user_id : Text) (amount : ℤ) (reference : Text) (w : World) (x : Result EntryResult × World)
    → IsSound x.1.db
    → IsBacked w.db
    → Atomic w.db (λ r w'. (wallet : Wallet) × Deducted user_id amount reference w wallet r w') x
    → IsBacked x.1.db
deduct_outcome-IsBacked user_id amount reference w (ok r, w') sound before
      (wallet, (own, found, inl p)) =
    same_db p.0 before
deduct_outcome-IsBacked user_id amount reference w (ok r, w') sound before
      (wallet, (own, found, inr p)) =
    record { sound = sound; backed = Posted-backed p.0 refl before.backed }
deduct_outcome-IsBacked user_id amount reference w (err e, w') sound before same =
    same_db same before

deposit-IsBacked :
    (user_id : Text) (dto : DepositDto) (w : World)
    → pos 0 ≤ℤ dto.amount
    → IsBacked w.db
    → IsBacked (deposit user_id dto w).1.db
deposit-IsBacked user_id dto w enough before =
    deposit_outcome-IsBacked user_id dto w (deposit user_id dto w)
      (deposit-IsSound user_id dto w enough before.sound) before (deposit-posts user_id dto w)

purchase_deduct-IsBacked :
    (user_id : Text) (amount : ℤ) (reference : Text) (w : World)
    → IsBacked w.db
    → IsBacked (purchase_deduct user_id amount reference w).1.db
purchase_deduct-IsBacked user_id amount reference w before =
    deduct_outcome-IsBacked user_id amount reference w (purchase_deduct user_id amount reference w)
      (purchase_deduct-IsSound user_id amount reference w before.sound) before
      (purchase_deduct-posts user_id amount reference w)

SameMoney-IsBacked : (v w : World) → SameMoney v w → IsBacked v.db → IsBacked w.db
SameMoney-IsBacked v w same before = record {
  sound = SameMoney-IsSound {v = v} {w = w} same before.sound;
  backed = rw (same.wallets, same.entries) before.backed;
}

module _ ⦃runtime : Runtime⦄ where
  Settled-IsBacked :
      (user_id : Text) (dto : TransferDto) (w : World) (x : Result TransferResult × World)
      → IsSound x.1.db
      → IsBacked w.db
      → Atomic w.db (λ r w'. (s : Wallet) × (t : Wallet) × Settled user_id dto w s t r w') x
      → IsBacked x.1.db
  Settled-IsBacked user_id dto w (ok r, w') sound before (s, t, (es, et, inl p)) =
      same_db p.0 before
  Settled-IsBacked user_id dto w (ok r, w') sound before (s, t, (es, et, inr p)) = record {
    sound = sound;
    backed = Transferred-backed s t dto w.clock w.db w'.db r p before.backed;
  }
  Settled-IsBacked user_id dto w (err e, w') sound before same = same_db same before

  transfer-IsBacked :
      (user_id : Text) (dto : TransferDto) (w : World)
      → pos 0 ≤ℤ dto.amount
      → IsBacked w.db
      → IsBacked (transfer user_id dto w).1.db
  transfer-IsBacked user_id dto w enough before = elim (transfer_writes user_id dto w) [
    | inl same ↦ same_db same before
    | inr (ne, written) ↦ same_db written (
        Settled-IsBacked user_id dto w (transaction (transfer_body user_id dto) w)
          (subst IsSound written (transfer-IsSound user_id dto w enough before.sound)) before
          (transfer_body-Settled user_id dto w before.sound ne))
  ]

register-IsBacked :
    (crypto : Crypto) (config : JwtConfig) (dto : RegisterDto) (w : World)
    → IsBacked w.db
    → IsBacked (register crypto config dto w).1.db
unfolding total_balance
register-IsBacked crypto config dto w before = record {
  sound = register-IsSound crypto config dto w before.sound;
  backed = elim (register_writes crypto config dto w) [
    | inl same ↦ rw same before.backed
    | inr (new, written) ↦ rw written (grind (int_laws, before.backed))
  ];
}

Created-backed :
    (dto : CreateFlashSaleEventDto) (w : World) (x : Result FlashSaleEvent × World)
    → Outcome (λ e w'. w'.db ≡ w.db) (Created dto w) x
    → total_balance w.db.wallets ≡ external_sum w.db.entries
    → total_balance x.1.db.wallets ≡ external_sum x.1.db.entries
Created-backed dto w (ok event, v) (same, db, clock, p) backed = rw db backed
Created-backed dto w (err e, v) same backed = rw same backed

module _ ⦃runtime : Runtime⦄ (crypto : Crypto) (config : JwtConfig) (env : Environment)
    (others : (ms : ℕ) (w : World) → IsBacked w.db → IsBacked (env.elapse ms w).db) where
  Step-IsBacked : {v w : World} → Step crypto config env v w → IsBacked v.db → IsBacked w.db
  Step-IsBacked (registers dto w) before = register-IsBacked crypto config dto w before
  Step-IsBacked (logs_in dto w) before = same_db (login-db crypto config dto w) before
  Step-IsBacked (refreshes token w) before = same_db (refresh-db crypto config token w) before
  Step-IsBacked (logs_out token w) before = same_db (logout-db crypto config token w) before
  Step-IsBacked (deposits user_id dto w enough) before =
      deposit-IsBacked user_id dto w enough before
  Step-IsBacked (transfers user_id dto w enough) before =
      transfer-IsBacked user_id dto w enough before
  Step-IsBacked (creates_event dto w) before = record {
    sound = create_event-IsSound dto w before.sound;
    backed = Created-backed dto w (create_event dto w) (create_event-creates dto w) before.backed;
  }
  Step-IsBacked (purchases user_id dto w) before =
      purchase_keeps env IsBacked SameMoney-IsBacked purchase_deduct-IsBacked others user_id dto w
        before
  Step-IsBacked (time_passes ms w) before = before

  pub Reachable-IsBacked : {w : World} → Reachable crypto config env w → IsBacked w.db
  Reachable-IsBacked (opens w none_yet no_entries) = record {
    sound = empty-IsSound w.db none_yet no_entries;
    backed = rw (none_yet, no_entries) empty-backed;
  }
  Reachable-IsBacked (after reached step) = Step-IsBacked step (Reachable-IsBacked reached)
