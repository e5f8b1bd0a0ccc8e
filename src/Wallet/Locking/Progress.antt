-- ===== src/Wallet/Locking/Progress.antt =====
-- No deadlock: while a transaction is not over, one can go on.
-- Whoever holds the row is one of the others, and is not over.
use backend_assessment_chall.Prelude.{
  All, Bool-cases, List, [], arith, inl, inr, refl, some, subst, suc, true, zero, ℕ, ◌∷◌, ◌≡◌, ◌⊎◌,
}
use backend_assessment_chall.Prelude.Text.{Text}
use backend_assessment_chall.Wallet.Locking.{
  LockRequest, RowLocks, Transaction, advance, begin_all, get_elem?, holds, one_holds, other_holds,
  run,
}
use backend_assessment_chall.Wallet.Locking.Furthest.{
  CanGoOn, Furthest-cases, IsOver, NotAbove, ends, list_cases, locks,
}
use backend_assessment_chall.Wallet.Locking.Ordering.{
  Above, IsApart, IsOrdered, advance-IsOrdered, begin_all-IsOrdered, get_elem?-IsOrdered,
  run-IsOrdered, some-injective,
}
use backend_assessment_chall.Wallet.Locking.Work.{advance-work, work}

holder_of :
    (id : Text) (ts : List Transaction)
    → one_holds id ts ≡ true
    → (j : ℕ) × (t : Transaction) × (get_elem? ts j ≡ some t) × (holds id t.held ≡ true)
unfolding one_holds get_elem?
holder_of id [] h = cc
holder_of id (t ∷ ts) h = elim (Bool-cases (holds id t.held)) [
  | inl it ↦ (zero, t, refl, it)
  | inr another ↦
      let (j, u, found, it) = holder_of id ts (ground (arith, another)) in (suc j, u, found, it)
]

other_of :
    (i : ℕ) (id : Text) (ts : List Transaction)
    → other_holds i id ts ≡ true
    → (j : ℕ) × (t : Transaction) × (get_elem? ts j ≡ some t) × (holds id t.held ≡ true)
unfolding other_holds get_elem?
other_of i id [] h = cc
other_of zero id (t ∷ ts) h = let (j, u, found, it) = holder_of id ts h in (suc j, u, found, it)
other_of (suc i) id (t ∷ ts) h = elim (Bool-cases (holds id t.held)) [
  | inl it ↦ (zero, t, refl, it)
  | inr another ↦
      let (j, u, found, it) = other_of i id ts (ground (arith, another)) in (suc j, u, found, it)
]

holds-some :
    (id : Text) (ids : List Text)
    → holds id ids ≡ true
    → (h : Text) × (hs : List Text) × (ids ≡ h ∷ hs)
unfolding holds
holds-some id [] h = absurd cc
holds-some id (x ∷ xs) h = (x, xs, refl)

get_elem?-NotAbove :
    (id : Text) (ts : List Transaction) (j : ℕ) (t : Transaction)
    → All (λ u. NotAbove id u.wanted) ts
    → get_elem? ts j ≡ some t
    → NotAbove id t.wanted
unfolding get_elem?
get_elem?-NotAbove id [] j t all found = absurd cc
get_elem?-NotAbove id (u ∷ us) zero t all found =
    subst (λ v. NotAbove id v.wanted) (some-injective found) all.0
get_elem?-NotAbove id (u ∷ us) (suc j) t all found = get_elem?-NotAbove id us j t all.1 found

module _ ⦃rows : RowLocks⦄ where
  -- The holder of the highest row that is wanted has all its rows.
  holder_ends :
      (ts : List Transaction) (id : Text) (j : ℕ) (t : Transaction)
      → All IsOrdered ts
      → All (λ u. NotAbove id u.wanted) ts
      → get_elem? ts j ≡ some t
      → holds id t.held ≡ true
      → CanGoOn ts
  holder_ends ts id j t ordered bounds found it =
      let (h, hs, holding) = holds-some id t.held it in
      elim (list_cases t.wanted) [
        | inl all_locked ↦ ends j ts t h hs found holding all_locked
        | inr (x, xs, wants_it) ↦
            let above : Above id (x ∷ xs) =
              subst (Above id) wants_it ((get_elem?-IsOrdered j ts t ordered found).above id it) in
            let below : NotAbove id (x ∷ xs) =
              subst (NotAbove id) wants_it (get_elem?-NotAbove id ts j t bounds found) in
            absurd (cc (above.0, below))
      ]

idle_or_ends :
    (ts : List Transaction)
    → All (λ t. t.wanted ≡ []) ts
    → All IsOver ts
      ⊎ ((i : ℕ) × (t : Transaction) × (h : Text) × (hs : List Text) × (get_elem? ts i ≡ some t)
          × (t.held ≡ h ∷ hs)
          × (t.wanted ≡ []))
unfolding get_elem?
idle_or_ends [] all = inl tt
idle_or_ends (t ∷ ts) (empty, all) =
    let rest_cases = idle_or_ends ts all in
    elim (list_cases t.held) [
      | inr (h, hs, holding) ↦ inr (zero, t, h, hs, refl, holding, empty)
      | inl released ↦ elim rest_cases [
        | inl over ↦ inl ((released, empty), over)
        | inr (i, u, h, hs, found, holding, all_locked) ↦
            inr (suc i, u, h, hs, found, holding, all_locked)
      ]
    ]

module _ ⦃rows : RowLocks⦄ where
  pub done_or_goes_on : (ts : List Transaction) → All IsOrdered ts → All IsOver ts ⊎ CanGoOn ts
  done_or_goes_on ts ordered = elim (Furthest-cases ts) [
    | inl nothing_wanted ↦ elim (idle_or_ends ts nothing_wanted) [
      | inl over ↦ inl over
      | inr (i, t, h, hs, found, holding, all_locked) ↦
          inr (ends i ts t h hs found holding all_locked)
    ]
    | inr (i, t, id, rest, found, wants_it, bounds) ↦ elim (Bool-cases (other_holds i id ts)) [
      | inr free ↦ inr (locks i ts t id rest found wants_it free)
      | inl taken ↦
          let (j, u, held_by, it) = other_of i id ts taken in
          inr (holder_ends ts id j u ordered bounds held_by it)
    ]
  ]

  abbrev Finishes : List Transaction → Type 0
  Finishes ts =
      (schedule : List ℕ) × (end : List Transaction) × (run schedule ts ≡ some end) × All IsOver end

  one_more :
      (i : ℕ) (ts next : List Transaction) → advance i ts ≡ some next → Finishes next → Finishes ts
  unfolding run
  one_more i ts next step (schedule, end, e, over) =
      (i ∷ schedule, end, ground (arith, step, e), over)

  run_on : (n : ℕ) (ts : List Transaction) → All IsOrdered ts → work ts ≡ n → Finishes ts
  unfolding run
  run_on zero ts ordered e = elim (done_or_goes_on ts ordered) [
    | inl over ↦ ([], ts, refl, over)
    | inr (i, next, step) ↦ absurd (omega (arith, e, advance-work i ts next step))
  ]
  run_on (suc n) ts ordered e = elim (done_or_goes_on ts ordered) [
    | inl over ↦ ([], ts, refl, over)
    | inr (i, next, step) ↦ one_more i ts next step (
        run_on n next (advance-IsOrdered i ts next ordered step)
          (omega (arith, e, advance-work i ts next step)))
  ]

  -- No deadlock. However far transactions of the wallet service have come, in whatever order they
  -- were let go on, either all are over, or one of them can go on; and there is a way to go on until
  -- all are over, with all rows given back. It is supposed that each transfer is between two wallets,
  -- and that PostgreSQL grants a row that no other transaction holds.
  pub run-finishes :
      (requests : List LockRequest) (schedule : List ℕ) (now : List Transaction)
      → All IsApart requests
      → run schedule (begin_all requests) ≡ some now
      → (All IsOver now ⊎ CanGoOn now)
        × ((rest : List ℕ) × (end : List Transaction) × (run rest now ≡ some end) × All IsOver end)
  run-finishes requests schedule now apart e =
      let ordered =
        run-IsOrdered schedule (begin_all requests) now (begin_all-IsOrdered requests apart) e in
      (done_or_goes_on now ordered, run_on (work now) now ordered refl)
