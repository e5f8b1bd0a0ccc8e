-- ===== src/Auth/Durations.antt =====
-- What `ttlToSeconds` makes of a row of digits, with and without a unit.
use backend_assessment_chall.Prelude.{
  Bool, [], arith, false, not, refl, some, true, ℕ, ◌&&◌, ◌*◌, ◌++◌, ◌+◌, ◌-◌, ◌∙◌, ◌∷◌, ◌≡◌,
}
use backend_assessment_chall.Auth.Ttl.{
  is_digit, is_space, last_unit, match_ttl, multiplier, read_ttl, trim_end, trim_start,
  ttl_to_seconds,
}
use backend_assessment_chall.Prelude.Text.{Text}

abbrev pub all_digits : Text → Bool
all_digits [] = true
all_digits (c ∷ cs) = is_digit c && all_digits cs

-- The number that digits stand for, the last one first.
unfoldable pub number_of_reversed : Text → ℕ
number_of_reversed [] = 0
number_of_reversed (c ∷ cs) = (c - 48) + 10 * number_of_reversed cs

abbrev pub reverse_onto : Text → Text → Text
reverse_onto [] rs = rs
reverse_onto (c ∷ cs) rs = reverse_onto cs (c ∷ rs)

-- The number that digits stand for.
abbrev pub number_of : Text → ℕ
number_of ds = number_of_reversed (reverse_onto ds [])

read_ttl-digits :
    (rs ds : Text)
    → all_digits ds ≡ true
    → read_ttl (number_of_reversed rs) ds ≡ some (number_of_reversed (reverse_onto ds rs))
unfolding read_ttl number_of_reversed
read_ttl-digits rs [] h = refl
read_ttl-digits rs (c ∷ cs) h = ground (arith, read_ttl-digits (c ∷ rs) cs)

is_digit-multiplier : (u m : ℕ) → multiplier u ≡ some m → is_digit u ≡ false
unfolding multiplier is_digit
is_digit-multiplier u m h = ground arith

read_ttl-unit :
    (rs ds : Text) (u m : ℕ)
    → all_digits ds ≡ true
    → multiplier u ≡ some m
    → read_ttl (number_of_reversed rs) (ds ++ (u ∷ []))
      ≡ some (number_of_reversed (reverse_onto ds rs) * m)
unfolding read_ttl number_of_reversed last_unit
read_ttl-unit rs [] u m h k = ground (arith, is_digit-multiplier u m k)
read_ttl-unit rs (c ∷ cs) u m h k = ground (arith, read_ttl-unit (c ∷ rs) cs u m)

abbrev is_visible : Text → Bool
is_visible [] = true
is_visible (c ∷ cs) = not (is_space c) && is_visible cs

trim_end-visible : (t : Text) → is_visible t ≡ true → trim_end t ≡ t
unfolding trim_end
trim_end-visible [] h = refl
trim_end-visible (c ∷ []) h = ground arith
trim_end-visible (c ∷ d ∷ ds) h = ground (arith, trim_end-visible (d ∷ ds))

trim_start-visible : (t : Text) → is_visible t ≡ true → trim_start t ≡ t
unfolding trim_start
trim_start-visible [] h = refl
trim_start-visible (c ∷ cs) h = ground arith

is_digit-visible : (c : ℕ) → is_digit c ≡ true → is_space c ≡ false
unfolding is_digit is_space
is_digit-visible c h = ground arith

multiplier-visible : (c m : ℕ) → multiplier c ≡ some m → is_space c ≡ false
unfolding multiplier is_space
multiplier-visible c m h = ground arith

digits-visible :
    (ds t : Text) → all_digits ds ≡ true → is_visible t ≡ true → is_visible (ds ++ t) ≡ true
digits-visible [] t h k = k
digits-visible (c ∷ cs) t h k = ground (arith, is_digit-visible c, digits-visible cs t)

all_digits-visible : (ds : Text) → all_digits ds ≡ true → is_visible ds ≡ true
all_digits-visible [] h = refl
all_digits-visible (c ∷ cs) h = ground (arith, is_digit-visible c, all_digits-visible cs)

trimmed : (t : Text) → is_visible t ≡ true → ttl_to_seconds t ≡ match_ttl t
unfolding ttl_to_seconds
trimmed t h = rw (trim_start-visible t h, trim_end-visible t h) refl

-- A text of one or more digits is that many seconds; with a unit after them it is that many times
-- the unit.
pub ttl_to_seconds-digits :
    (c : ℕ) (cs : Text) (u m : ℕ)
    → all_digits (c ∷ cs) ≡ true
    → multiplier u ≡ some m
    → (ttl_to_seconds (c ∷ cs) ≡ some (number_of (c ∷ cs)))
      × (ttl_to_seconds ((c ∷ cs) ++ (u ∷ [])) ≡ some (number_of (c ∷ cs) * m))
unfolding match_ttl number_of_reversed
ttl_to_seconds-digits c cs u m h k = (
  trimmed (c ∷ cs) (all_digits-visible (c ∷ cs) h) ∙ ground (arith, read_ttl-digits (c ∷ []) cs),
  trimmed ((c ∷ cs) ++ (u ∷ []))
        (digits-visible (c ∷ cs) (u ∷ []) h (rw (multiplier-visible u m k) refl))
      ∙ ground (arith, read_ttl-unit (c ∷ []) cs u m),
)
