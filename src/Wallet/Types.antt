-- ===== src/Wallet/Types.antt =====
-- The requests and replies of src/modules/wallet/wallet.service.ts, and the library code that it
-- calls on them: `Decimal.toString`, `JSON.stringify` and `JSON.parse`. An amount in a request is
-- the number of hundredths that the validated number stands for.
use backend_assessment_chall.Prelude.{Bool, List, Option, [], ◌≡◌, ◌≢◌}
use backend_assessment_chall.Prelude.Int.{ℤ}
use backend_assessment_chall.Prelude.Text.{Text}
use backend_assessment_chall.Schema.{LedgerEntry}

-- modules/wallet/dto/deposit.dto.ts and transfer.dto.ts.
pub record DepositDto : Type 0 where
  pub amount : ℤ

pub record TransferDto : Type 0 where
  pub to_user_id : Text
  pub amount : ℤ
  pub idempotency_key : Text

-- What `deposit` and `purchaseDeduct` return.
pub record EntryResult : Type 0 where
  pub wallet_id : Text
  pub balance : ℤ
  pub entry : LedgerEntry

-- What `transfer` returns; a replay has no `toBalance`.
pub record TransferResult : Type 0 where
  pub from_wallet_id : Text
  pub to_wallet_id : Text
  pub amount : Text
  pub from_balance : Text
  pub to_balance : Option Text
  pub reference_id : Text
  pub replayed : Bool

-- One line of `verifyInvariant`'s report.
pub record InvariantReport : Type 0 where
  pub wallet_id : Text
  pub balance : Text
  pub ledger_sum : Text
  pub matches : Bool

-- What `getMe` returns.
pub record WalletView : Type 0 where
  pub balance : ℤ
  pub entries : List LedgerEntry

-- The functions of decimal.js and JSON, with what the code relies on: the text of an object is not
-- empty, and parses back to the object.
pub record Runtime : Type 0 where
  pub decimal_to_string : ℤ → Text
  pub stringify : TransferResult → Text
  pub parse : Text → TransferResult
  pub parse-stringify : (r : TransferResult) → parse (stringify r) ≡ r
  pub stringify-nonempty : (r : TransferResult) → stringify r ≢ []
