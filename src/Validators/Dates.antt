-- ===== src/Validators/Dates.antt =====
-- The rules on dates, and the event that a body which keeps them leads to.
use backend_assessment_chall.Prelude.{
  Option, Option-cases, arith, inl, inr, none, refl, some, true, ℕ, ◌<◌, ◌≡◌,
}
use backend_assessment_chall.FlashSale.{create_event, purchase}
use backend_assessment_chall.FlashSale.Creation.{create_event-creates, purchase-inactive}
use backend_assessment_chall.FlashSale.Queries.{event_not_active}
use backend_assessment_chall.FlashSale.Types.{CreateFlashSaleEventDto, Environment}
use backend_assessment_chall.Prelude.Table.{find_by}
use backend_assessment_chall.Prelude.Text.{Text}
use backend_assessment_chall.Schema.{FlashSaleEvent, event_by_id, order_by_key}
use backend_assessment_chall.Validators.{
  FieldValue, dates_are_valid, is_after_date, is_not_past_date, number, other_value, string,
}
use backend_assessment_chall.World.{World, err, ok}

module _ (parse : Text → Option ℕ) where
  -- Dates that keep the rules can be read, and the event starts after now and ends after its start.
  pub dates_are_valid-order :
      (now : ℕ) (starts ends : FieldValue)
      → dates_are_valid parse now starts ends ≡ true
      → (s : ℕ) × (e : ℕ) × (a : Text) × (b : Text) × (starts ≡ string a)
        × (parse a ≡ some s)
        × (ends ≡ string b)
        × (parse b ≡ some e)
        × (now < s)
        × (s < e)
  unfolding dates_are_valid is_not_past_date is_after_date
  dates_are_valid-order now other_value ends h = ground arith
  dates_are_valid-order now (number m places) ends h = ground arith
  dates_are_valid-order now (string a) other_value h = ground arith
  dates_are_valid-order now (string a) (number m places) h = ground arith
  dates_are_valid-order now (string a) (string b) h = elim (Option-cases (parse a)) [
    | inl bad ↦ ground arith
    | inr (s, is_s) ↦ elim (Option-cases (parse b)) [
      | inl bad ↦ ground arith
      | inr (e, is_e) ↦ (s, e, a, b, refl, is_s, refl, is_e, ground arith, ground arith)
    ]
  ]

-- An event made from a body whose two dates keep the rules at that time, and are read as the
-- event's dates, has all its stock, ends after it starts, and cannot be bought from at the time
-- of its making: a purchase with a key that has no order is refused as not active, with no
-- change.
pub dates_are_valid-create_event :
    (parse : Text → Option ℕ) (a b : Text) (dto : CreateFlashSaleEventDto) (w w' : World)
    (event : FlashSaleEvent) (env : Environment) (user_id key : Text)
    → dates_are_valid parse w.clock (string a) (string b) ≡ true
    → parse a ≡ some dto.starts_at
    → parse b ≡ some dto.ends_at
    → create_event dto w ≡ (ok event, w')
    → order_by_key (event.id, key) w'.db.orders ≡ none
    → (event.remaining ≡ dto.total_stock)
      × (event.starts_at < event.ends_at)
      × (purchase env user_id (record { event_id = event.id; idempotency_key = key }) w'
          ≡ (err event_not_active, w'))
unfolding dates_are_valid is_not_past_date is_after_date event_by_id find_by
dates_are_valid-create_event parse a b dto w w' event env user_id key valid is_a is_b done new_key =
    let (same, db, clock, sold) = rw done at (create_event-creates dto w) in
    let (product, found) = sold in
    (
      ground arith,
      ground arith,
      purchase-inactive env user_id (record { event_id = event.id; idempotency_key = key }) w' event
          product new_key (ground arith) (rw (db, same) found) (inl (ground arith)),
    )
