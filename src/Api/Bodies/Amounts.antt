-- ===== src/Api/Bodies/Amounts.antt =====
-- What is known of a body that has passed.
use backend_assessment_chall.Prelude.{List, arith, some, ◌≡◌}
use backend_assessment_chall.Api.Bodies.{deposit_dto, field_value, positive_amount, transfer_dto}
use backend_assessment_chall.Api.Types.{Edge, Field}
use backend_assessment_chall.Prelude.Int.{pos, ℤ, ◌≤ℤ◌}
use backend_assessment_chall.Prelude.Text.{codes}
use backend_assessment_chall.Validators.{FieldValue}
use backend_assessment_chall.Wallet.Types.{DepositDto, TransferDto}

positive_amount-positive : (v : FieldValue) (a : ℤ) → positive_amount v ≡ some a → pos 0 ≤ℤ a
unfolding positive_amount
positive_amount-positive v a h = ground arith

-- The amount of a deposit that has passed is not negative.
pub deposit_dto-amount :
    (body : List Field) (dto : DepositDto) → deposit_dto body ≡ some dto → pos 0 ≤ℤ dto.amount
unfolding deposit_dto
deposit_dto-amount body dto h =
    ground (arith, positive_amount-positive (field_value (codes "amount") body) dto.amount)

-- So is the amount of a transfer.
pub transfer_dto-amount :
    (edge : Edge) (body : List Field) (dto : TransferDto)
    → transfer_dto edge body ≡ some dto
    → pos 0 ≤ℤ dto.amount
unfolding transfer_dto
transfer_dto-amount edge body dto h =
    ground (arith, positive_amount-positive (field_value (codes "amount") body) dto.amount)
