-- ===== src/History.antt =====
-- The states that the service gets to: requests to the three services, one after the other, in any
-- order and with any arguments, and time that passes. The amount of a deposit or a transfer is not
-- negative: the DTOs ask for `@IsPositive()`.
pub mod Reached
pub mod Backed
use backend_assessment_chall.Prelude.{[], ℕ, ◌+◌, ◌≡◌}
use backend_assessment_chall.Auth.{login, logout, refresh, register}
use backend_assessment_chall.Auth.Types.{Crypto, JwtConfig, LoginDto, RegisterDto}
use backend_assessment_chall.FlashSale.{create_event, purchase}
use backend_assessment_chall.FlashSale.Types.{
  CreateFlashSaleEventDto, Environment, PurchaseFlashSaleDto,
}
use backend_assessment_chall.Prelude.Int.{pos, ◌≤ℤ◌}
use backend_assessment_chall.Prelude.Text.{Text}
use backend_assessment_chall.Wallet.{deposit, transfer}
use backend_assessment_chall.Wallet.Types.{DepositDto, Runtime, TransferDto}
use backend_assessment_chall.World.{World}

module _ ⦃runtime : Runtime⦄ (crypto : Crypto) (config : JwtConfig) (env : Environment) where
  -- One request that was answered, with a reply or an exception, or some milliseconds.
  pub data Step : World → World → Type 0 where
    registers : (dto : RegisterDto) (w : World) → Step w (register crypto config dto w).1
    logs_in : (dto : LoginDto) (w : World) → Step w (login crypto config dto w).1
    refreshes : (token : Text) (w : World) → Step w (refresh crypto config token w).1
    logs_out : (token : Text) (w : World) → Step w (logout crypto config token w).1
    deposits :
        (user_id : Text) (dto : DepositDto) (w : World)
        → pos 0 ≤ℤ dto.amount
        → Step w (deposit user_id dto w).1
    transfers :
        (user_id : Text) (dto : TransferDto) (w : World)
        → pos 0 ≤ℤ dto.amount
        → Step w (transfer user_id dto w).1
    creates_event : (dto : CreateFlashSaleEventDto) (w : World) → Step w (create_event dto w).1
    purchases :
        (user_id : Text) (dto : PurchaseFlashSaleDto) (w : World)
        → Step w (purchase env user_id dto w).1
    time_passes : (ms : ℕ) (w : World) → Step w (record w { clock = w.clock + ms })

  -- A service starts with no wallets and an empty ledger.
  pub data Reachable : World → Type 0 where
    opens : (w : World) → w.db.wallets ≡ [] → w.db.entries ≡ [] → Reachable w
    after : {v w : World} → Reachable v → Step v w → Reachable w
