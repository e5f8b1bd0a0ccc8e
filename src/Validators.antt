-- ===== src/Validators.antt =====
-- src/common/validators: the rules for the dates of a flash sale
-- (is-not-past-date.validator.ts, is-after-date.validator.ts). `Date` is the parameter `parse`,
-- which is none for an invalid date.
pub mod Dates
use backend_assessment_chall.Prelude.{Bool, Option, false, ltb, none, some, ℕ, ◌&&◌}
use backend_assessment_chall.Prelude.Int.{ℤ}
use backend_assessment_chall.Prelude.Text.{Text}

-- A field of the request's body: a string; a number, as the whole number of its digits and how many
-- of them stand after the point, none of these a 0 at the end; or another value or none.
pub data FieldValue : Type 0 where
  string : Text → FieldValue
  number : ℤ → ℕ → FieldValue
  other_value : FieldValue

module _ (parse : Text → Option ℕ) where
  -- `IsNotPastDateConstraint.validate`, at the time `now`.
  unfoldable pub is_not_past_date : ℕ → FieldValue → Bool
  is_not_past_date now other_value = false
  is_not_past_date now (number m places) = false
  is_not_past_date now (string s) = elim (parse s) [ none ↦ false | some t ↦ ltb now t ]

  -- `IsAfterDateConstraint.validate`, given the value of the related property.
  unfoldable pub is_after_date : FieldValue → FieldValue → Bool
  is_after_date other_value related = false
  is_after_date (number m places) related = false
  is_after_date (string s) other_value = false
  is_after_date (string s) (number m places) = false
  is_after_date (string s) (string r) = elim (parse s) [
    | none ↦ false
    | some t ↦ elim (parse r) [ none ↦ false | some u ↦ ltb u t ]
  ]

  -- The rules on the two dates of `CreateFlashSaleEventDto`.
  unfoldable pub dates_are_valid : ℕ → FieldValue → FieldValue → Bool
  unfolding is_not_past_date is_after_date
  dates_are_valid now starts ends =
      is_not_past_date now starts && is_not_past_date now ends && is_after_date ends starts
