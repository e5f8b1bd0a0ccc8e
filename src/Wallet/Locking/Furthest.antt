-- ===== src/Wallet/Locking/Furthest.antt =====
-- The transaction that wants the highest row, and when a transaction can go on.
use backend_assessment_chall.Prelude.{
  All, Bool, Bool-cases, List, [], arith, false, inl, inr, refl, some, suc, true, zero, ℕ, ◌∷◌, ◌≡◌,
  ◌⊎◌,
}
use backend_assessment_chall.Prelude.Text.{Text, text_leb, text_leb_total, text_leb_trans}
use backend_assessment_chall.Wallet.Locking.{
  RowLocks, Transaction, advance, advanced, finished, get_elem?, must_wait, other_holds, replace_at,
}

abbrev pub IsOver : Transaction → Type 0
IsOver t = (t.held ≡ []) × (t.wanted ≡ [])

module _ ⦃rows : RowLocks⦄ where
  abbrev pub CanGoOn : List Transaction → Type 0
  CanGoOn ts = (i : ℕ) × (next : List Transaction) × (advance i ts ≡ some next)

pub list_cases : (ids : List Text) → (ids ≡ []) ⊎ ((x : Text) × (xs : List Text) × (ids ≡ x ∷ xs))
list_cases [] = inl refl
list_cases (x ∷ xs) = inr (x, xs, refl)

module _ ⦃rows : RowLocks⦄ where
  put_back-goes :
      (i : ℕ) (ts : List Transaction) (t new : Transaction) (wait : Bool)
      → get_elem? ts i ≡ some t
      → must_wait i t.wanted ts ≡ wait
      → advanced wait t.held t.wanted ≡ some new
      → CanGoOn ts
  unfolding advance
  put_back-goes i ts t new wait found waits goes = (i, replace_at i new ts, ground arith)

  -- A transaction with all its rows ends, and one whose next row is free locks it.
  pub ends :
      (i : ℕ) (ts : List Transaction) (t : Transaction) (h : Text) (hs : List Text)
      → get_elem? ts i ≡ some t
      → t.held ≡ h ∷ hs
      → t.wanted ≡ []
      → CanGoOn ts
  unfolding must_wait advanced
  ends i ts t h hs found holding all_locked =
      put_back-goes i ts t finished false found (rw all_locked refl) (rw (holding, all_locked) refl)

  pub locks :
      (i : ℕ) (ts : List Transaction) (t : Transaction) (id : Text) (rest : List Text)
      → get_elem? ts i ≡ some t
      → t.wanted ≡ id ∷ rest
      → other_holds i id ts ≡ false
      → CanGoOn ts
  unfolding must_wait advanced
  locks i ts t id rest found wants_it free =
      put_back-goes i ts t (record { held = id ∷ t.held; wanted = rest }) false found
        (rw (wants_it, rows.grants-free i id ts free) refl) (rw wants_it refl)

-- The row that a transaction wants next is not above `id`.
abbrev pub NotAbove : Text → List Text → Type 0
NotAbove id [] = Unit {0}
NotAbove id (x ∷ xs) = text_leb x id ≡ true

text_leb_refl : (a : Text) → text_leb a a ≡ true
text_leb_refl a = ground (arith, text_leb_total a a)

NotAbove-widen :
    (a b : Text) (ids : List Text) → text_leb a b ≡ true → NotAbove a ids → NotAbove b ids
NotAbove-widen a b [] le h = tt
NotAbove-widen a b (x ∷ xs) le h = text_leb_trans x a b h le

widen_bounds :
    (a b : Text) (ts : List Transaction)
    → text_leb a b ≡ true
    → All (λ t. NotAbove a t.wanted) ts
    → All (λ t. NotAbove b t.wanted) ts
widen_bounds a b [] le h = tt
widen_bounds a b (t ∷ ts) le (h, hs) = (NotAbove-widen a b t.wanted le h, widen_bounds a b ts le hs)

nothing_above :
    (id : Text) (ts : List Transaction)
    → All (λ t. t.wanted ≡ []) ts
    → All (λ t. NotAbove id t.wanted) ts
nothing_above id [] h = tt
nothing_above id (t ∷ ts) (h, hs) = (rw h tt, nothing_above id ts hs)

-- The transaction that wants the highest row.
abbrev pub Furthest : List Transaction → Type 0
Furthest ts =
    (i : ℕ) × (t : Transaction) × (id : Text) × (rest : List Text) × (get_elem? ts i ≡ some t)
    × (t.wanted ≡ id ∷ rest)
    × All (λ t. NotAbove id t.wanted) ts

farther :
    (t : Transaction) (ts : List Transaction) (id : Text) (rest : List Text)
    → t.wanted ≡ id ∷ rest
    → Furthest ts
    → Furthest (t ∷ ts)
unfolding get_elem?
farther t ts id rest wants_it (i, u, top, others, found, wants_top, bounds) =
    elim (Bool-cases (text_leb id top)) [
      | inl below ↦ (suc i, u, top, others, found, wants_top, (rw wants_it below, bounds))
      | inr above ↦ (
        zero,
        t,
        id,
        rest,
        refl,
        wants_it,
        (
          rw wants_it (text_leb_refl id),
          widen_bounds top id ts (text_leb_total id top above) bounds,
        ),
      )
    ]

pub Furthest-cases : (ts : List Transaction) → All (λ t. t.wanted ≡ []) ts ⊎ Furthest ts
unfolding get_elem?
Furthest-cases [] = inl tt
Furthest-cases (t ∷ ts) =
    let rest_cases = Furthest-cases ts in
    elim (list_cases t.wanted) [
      | inl nothing_left ↦ elim rest_cases [
        | inl all ↦ inl (nothing_left, all)
        | inr (i, u, top, others, found, wants_top, bounds) ↦
            inr (suc i, u, top, others, found, wants_top, (rw nothing_left tt, bounds))
      ]
      | inr (id, rest, wants_it) ↦ elim rest_cases [
        | inl all ↦ inr (
          zero,
          t,
          id,
          rest,
          refl,
          wants_it,
          (rw wants_it (text_leb_refl id), nothing_above id ts all),
        )
        | inr best ↦ inr (farther t ts id rest wants_it best)
      ]
    ]
