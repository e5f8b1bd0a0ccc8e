-- ===== src/Wallet/Locking/Work.antt =====
-- How many statements are left, and the end of every schedule.
-- A statement is left for each row to lock, and one to end.
use backend_assessment_chall.Prelude.{
  Bool, List, Option, Option-cases, [], arith, false, inl, inr, length, none, refl, some, subst,
  suc, true, zero, ℕ, ◌+◌, ◌∷◌, ◌≡◌,
}
use backend_assessment_chall.Prelude.Text.{Text}
use backend_assessment_chall.Wallet.Locking.{
  RowLocks, Transaction, advance, advanced, get_elem?, must_wait, put_back, replace_at, run,
}
use backend_assessment_chall.Wallet.Locking.Ordering.{some-injective}

unfoldable pub statements_left : List Text → List Text → ℕ
statements_left [] [] = 0
statements_left (h ∷ hs) [] = 1
statements_left held (id ∷ rest) = length (id ∷ rest) + 1

unfoldable pub work : List Transaction → ℕ
unfolding statements_left
work [] = 0
work (t ∷ ts) = statements_left t.held t.wanted + work ts

advanced-work :
    (wait : Bool) (held wanted : List Text) (new : Transaction)
    → advanced wait held wanted ≡ some new
    → statements_left new.held new.wanted + 1 ≡ statements_left held wanted
unfolding advanced statements_left
advanced-work true held (id ∷ rest) new e = cc
advanced-work false held (id ∷ []) new e = rw (← some-injective e) (ground arith)
advanced-work false held (id ∷ x ∷ rest) new e = rw (← some-injective e) (ground arith)
advanced-work wait [] [] new e = cc
advanced-work wait (h ∷ hs) [] new e = rw (← some-injective e) (ground arith)

replace_at-work :
    (i : ℕ) (t new : Transaction) (ts : List Transaction)
    → get_elem? ts i ≡ some t
    → statements_left new.held new.wanted + 1 ≡ statements_left t.held t.wanted
    → work (replace_at i new ts) + 1 ≡ work ts
unfolding get_elem? replace_at work
replace_at-work i t new [] found e = cc
replace_at-work zero t new (x ∷ xs) found e = rw (some-injective found) (ground (arith, e))
replace_at-work (suc i) t new (x ∷ xs) found e = ground (arith, replace_at-work i t new xs found e)

put_back-work :
    (i : ℕ) (t : Transaction) (ts next : List Transaction) (o : Option Transaction)
    → get_elem? ts i ≡ some t
    → ((new : Transaction)
        → o ≡ some new
        → statements_left new.held new.wanted + 1 ≡ statements_left t.held t.wanted)
    → put_back i ts o ≡ some next
    → work next + 1 ≡ work ts
put_back-work i t ts next none found f e = cc
put_back-work i t ts next (some new) found f e =
    subst (λ v. work v + 1 ≡ work ts) (some-injective e)
      (replace_at-work i t new ts found (f new refl))

module _ ⦃rows : RowLocks⦄ where
  pub advance-work :
      (i : ℕ) (ts next : List Transaction) → advance i ts ≡ some next → work next + 1 ≡ work ts
  unfolding advance
  advance-work i ts next e = elim (Option-cases (get_elem? ts i)) [
    | inl missing ↦ absurd cc
    | inr (t, found) ↦
        put_back-work i t ts next (advanced (must_wait i t.wanted ts) t.held t.wanted) found
          (λ new a. advanced-work (must_wait i t.wanted ts) t.held t.wanted new a)
          (rw (advance, found) at e)
  ]

  pub run-work :
      (schedule : List ℕ) (ts next : List Transaction)
      → run schedule ts ≡ some next
      → length schedule + work next ≡ work ts
  unfolding run
  run-work [] ts next e = rw (← some-injective e) (omega arith)
  run-work (i ∷ schedule) ts next e = elim (Option-cases (advance i ts)) [
    | inl missing ↦ absurd cc
    | inr (middle, step) ↦
        omega (
          arith,
          run-work schedule middle next (rw (run, step) at e),
          advance-work i ts middle step,
        )
  ]
