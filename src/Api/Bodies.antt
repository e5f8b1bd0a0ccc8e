-- ===== src/Api/Bodies.antt =====
-- The bodies that the `ValidationPipe` of src/main.ts lets pass (`whitelist` and
-- `forbidNonWhitelisted`): the rules of the classes in src/auth/dto, src/modules/wallet/dto and
-- src/modules/flash-sale/dto. A body is none, where a rule is broken.
pub mod Amounts
use backend_assessment_chall.Prelude.{
  Bool, List, Option, [], false, if◌then◌else◌, ite, none, some, suc, true, zero, ℕ, ◌&&◌, ◌*◌,
  ◌||◌, ◌∷◌,
}
use backend_assessment_chall.Api.Types.{Edge, Field}
use backend_assessment_chall.Auth.Types.{LoginDto, RegisterDto}
use backend_assessment_chall.FlashSale.Types.{CreateFlashSaleEventDto, PurchaseFlashSaleDto}
use backend_assessment_chall.Prelude.Int.{pos, ℤ}
use backend_assessment_chall.Prelude.Text.{Text, codes, text_discrete}
use backend_assessment_chall.Validators.{FieldValue, dates_are_valid, number, other_value, string}
use backend_assessment_chall.Wallet.Types.{DepositDto, TransferDto}

abbrev pub is_one_of : Text → List Text → Bool
is_one_of t [] = false
is_one_of t (x ∷ xs) = ite (text_discrete x t) true false || is_one_of t xs

-- No field but the ones named.
unfoldable pub only_fields : List Text → List Field → Bool
only_fields names [] = true
only_fields names (f ∷ fs) = is_one_of f.name names && only_fields names fs

-- The value of a field; what is not there breaks every rule, as a value of no use does.
unfoldable pub field_value : Text → List Field → FieldValue
field_value name [] = other_value
field_value name (f ∷ fs) = ite (text_discrete f.name name) f.value (field_value name fs)

-- `@IsNumber({ maxDecimalPlaces: 2 })` and `@IsPositive()`: the amount in hundredths.
unfoldable pub positive_amount : FieldValue → Option ℤ
positive_amount (number (pos (suc n)) zero) = some (pos (suc n * 100))
positive_amount (number (pos (suc n)) (suc zero)) = some (pos (suc n * 10))
positive_amount (number (pos (suc n)) (suc (suc zero))) = some (pos (suc n))
positive_amount _ = none

-- `@IsInt()` and `@Min(1)`
unfoldable pub positive_int : FieldValue → Option ℕ
positive_int (number (pos (suc n)) zero) = some (suc n)
positive_int _ = none

-- `@IsString()` and `@IsNotEmpty()`
unfoldable pub filled_string : FieldValue → Option Text
filled_string (string (c ∷ cs)) = some (c ∷ cs)
filled_string _ = none

-- A string that passes a test of class-validator.
unfoldable pub tested_string : (Text → Bool) → FieldValue → Option Text
tested_string test (string s) = if test s then some s else none
tested_string test _ = none

-- Both, or none.
abbrev pub both : {A B : Type 0} → Option A → Option B → Option (A × B)
both none b = none
both (some a) none = none
both (some a) (some b) = some (a, b)

abbrev pub map_some : {A B : Type 0} → (A → B) → Option A → Option B
map_some f none = none
map_some f (some a) = some (f a)

abbrev pub given : {A : Type 0} → Bool → Option A → Option A
given test o = if test then o else none

unfoldable pub deposit_dto : List Field → Option DepositDto
deposit_dto body =
    given (only_fields (codes "amount" ∷ []) body)
      (map_some (λ a. record { amount = a }) (positive_amount (field_value (codes "amount") body)))

module _ (edge : Edge) where
  open edge use {is_uuid, is_email, is_date_string, has_min_length, parse_date}

  -- `@IsEmail()`, and `@IsString()` with `@MinLength(8)`
  unfoldable pub credentials : List Field → Option (Text × Text)
  credentials body = given (only_fields (codes "email" ∷ codes "password" ∷ []) body) (
      both (tested_string is_email (field_value (codes "email") body))
        (tested_string (has_min_length 8) (field_value (codes "password") body)))

  unfoldable pub register_dto : List Field → Option RegisterDto
  register_dto body = map_some (λ c. record { email = c.0; password = c.1 }) (credentials body)

  unfoldable pub login_dto : List Field → Option LoginDto
  login_dto body = map_some (λ c. record { email = c.0; password = c.1 }) (credentials body)

  unfoldable pub refresh_token_dto : List Field → Option Text
  refresh_token_dto body =
      given (only_fields (codes "refreshToken" ∷ []) body)
        (filled_string (field_value (codes "refreshToken") body))

  unfoldable pub transfer_dto : List Field → Option TransferDto
  transfer_dto body =
      given (only_fields (codes "toUserId" ∷ codes "amount" ∷ codes "idempotencyKey" ∷ []) body) (
        map_some (λ p. record { to_user_id = p.0; amount = p.1.0; idempotency_key = p.1.1 })
          (both (tested_string is_uuid (field_value (codes "toUserId") body)) (
            both (positive_amount (field_value (codes "amount") body))
              (filled_string (field_value (codes "idempotencyKey") body)))))

  -- `@IsDateString()`, as the number that `new Date` makes of it.
  unfoldable pub read_date : FieldValue → Option ℕ
  read_date (string s) = if is_date_string s then parse_date s else none
  read_date _ = none

  -- The two dates, with the tests of src/common/validators.
  unfoldable pub sale_dates : ℕ → FieldValue → FieldValue → Option (ℕ × ℕ)
  sale_dates now starts ends =
      given (dates_are_valid parse_date now starts ends) (both (read_date starts) (read_date ends))

  unfoldable pub create_event_dto : ℕ → List Field → Option CreateFlashSaleEventDto
  create_event_dto now body =
      given
        (only_fields
          (codes "productId" ∷ codes "totalStock" ∷ codes "startsAt" ∷ codes "endsAt" ∷ []) body)
        (map_some
          (λ p. record {
            product_id = p.0;
            total_stock = p.1.0;
            starts_at = p.1.1.0;
            ends_at = p.1.1.1;
          })
          (both (tested_string is_uuid (field_value (codes "productId") body)) (
            both (positive_int (field_value (codes "totalStock") body)) (
              sale_dates now (field_value (codes "startsAt") body)
                (field_value (codes "endsAt") body)))))

  unfoldable pub purchase_dto : List Field → Option PurchaseFlashSaleDto
  purchase_dto body = given (only_fields (codes "eventId" ∷ codes "idempotencyKey" ∷ []) body) (
      map_some (λ p. record { event_id = p.0; idempotency_key = p.1 })
        (both (tested_string is_uuid (field_value (codes "eventId") body))
          (filled_string (field_value (codes "idempotencyKey") body))))
