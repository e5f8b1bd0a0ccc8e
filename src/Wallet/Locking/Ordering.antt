-- ===== src/Wallet/Locking/Ordering.antt =====
-- Every transaction locks its rows in ascending order of their ids.
use backend_assessment_chall.Prelude.{
  All, Bool, List, Option, Option-cases, [], arith, false, inl, inr, none, refl, some, subst, suc,
  true, zero, ℕ, ◌∷◌, ◌≡◌, ◌≢◌,
}
use backend_assessment_chall.Prelude.Text.{
  Text, text_discrete, text_leb, text_leb_antisym, text_leb_total,
}
use backend_assessment_chall.Wallet.{sort_pair}
use backend_assessment_chall.Wallet.Locking.{
  LockRequest, RowLocks, Transaction, advance, advanced, begin, begin_all, finished, get_elem?,
  holds, must_wait, one_wallet, put_back, replace_at, run, two_wallets, wants,
}

pub some-injective : {A : Type 0} {a b : A} → some a ≡ some b → a ≡ b
some-injective h = cc

abbrev pub Above : Text → List Text → Type 0
Above id ids = All (λ x. text_leb x id ≡ false) ids

abbrev pub Ascending : List Text → Type 0
Ascending [] = Unit {0}
Ascending (x ∷ xs) = Above x xs × Ascending xs

-- What it wants is above all that it holds.
pub record IsOrdered (t : Transaction) : Type 0 where
  pub above : (id : Text) → holds id t.held ≡ true → Above id t.wanted
  pub ascending : Ascending t.wanted

-- A transfer has two wallets.
abbrev pub IsApart : LockRequest → Type 0
IsApart (one_wallet id) = Unit {0}
IsApart (two_wallets sender receiver) = sender ≢ receiver

sort_pair-apart : (a b : Text) → a ≢ b → text_leb (sort_pair a b).1 (sort_pair a b).0 ≡ false
unfolding sort_pair
sort_pair-apart a b ne = ground (arith, text_leb_total a b, text_leb_antisym a b)

begin-IsOrdered : (r : LockRequest) → IsApart r → IsOrdered (begin r)
unfolding begin wants holds
begin-IsOrdered (one_wallet id) apart = record { above = λ x h. absurd cc; ascending = (tt, tt) }
begin-IsOrdered (two_wallets a b) apart = record {
  above = λ x h. absurd cc;
  ascending = ((sort_pair-apart a b apart, tt), (tt, tt));
}

pub begin_all-IsOrdered : (rs : List LockRequest) → All IsApart rs → All IsOrdered (begin_all rs)
begin_all-IsOrdered [] apart = tt
begin_all-IsOrdered (r ∷ rs) (one, rest) = (begin-IsOrdered r one, begin_all-IsOrdered rs rest)

pub get_elem?-IsOrdered :
    (i : ℕ) (ts : List Transaction) (t : Transaction)
    → All IsOrdered ts
    → get_elem? ts i ≡ some t
    → IsOrdered t
unfolding get_elem?
get_elem?-IsOrdered i [] t all found = cc
get_elem?-IsOrdered zero (x ∷ xs) t all found = subst IsOrdered (ground arith) all.0
get_elem?-IsOrdered (suc i) (x ∷ xs) t all found = get_elem?-IsOrdered i xs t all.1 found

replace_at-IsOrdered :
    (i : ℕ) (new : Transaction) (ts : List Transaction)
    → IsOrdered new
    → All IsOrdered ts
    → All IsOrdered (replace_at i new ts)
unfolding replace_at
replace_at-IsOrdered i new [] ordered all = tt
replace_at-IsOrdered zero new (t ∷ ts) ordered all = (ordered, all.1)
replace_at-IsOrdered (suc i) new (t ∷ ts) ordered all =
    (all.0, replace_at-IsOrdered i new ts ordered all.1)

took-IsOrdered :
    (held rest : List Text) (id : Text)
    → IsOrdered (record { held = held; wanted = id ∷ rest })
    → IsOrdered (record { held = id ∷ held; wanted = rest })
unfolding holds
took-IsOrdered held rest id ordered = record {
  above = λ x h.
      elim (text_discrete id x) as (λ d. text_discrete id x ≡ d → Above x rest) [
        | yes same ↦ λ e. subst (λ y. Above y rest) same ordered.ascending.0
        | no differs ↦ λ e. (ordered.above x (ground arith)).1
      ]
        refl;
  ascending = ordered.ascending.1;
}

finished-IsOrdered : IsOrdered finished
unfolding holds
finished-IsOrdered = record { above = λ x h. tt; ascending = tt }

advanced-IsOrdered :
    (wait : Bool) (held wanted : List Text) (new : Transaction)
    → IsOrdered (record { held = held; wanted = wanted })
    → advanced wait held wanted ≡ some new
    → IsOrdered new
unfolding advanced
advanced-IsOrdered true held (id ∷ rest) new ordered e = cc
advanced-IsOrdered false held (id ∷ rest) new ordered e =
    subst IsOrdered (some-injective e) (took-IsOrdered held rest id ordered)
advanced-IsOrdered wait [] [] new ordered e = cc
advanced-IsOrdered wait (h ∷ hs) [] new ordered e =
    subst IsOrdered (some-injective e) finished-IsOrdered

put_back-IsOrdered :
    (i : ℕ) (ts next : List Transaction) (o : Option Transaction)
    → ((new : Transaction) → o ≡ some new → IsOrdered new)
    → All IsOrdered ts
    → put_back i ts o ≡ some next
    → All IsOrdered next
put_back-IsOrdered i ts next none f all e = cc
put_back-IsOrdered i ts next (some new) f all e =
    subst (All IsOrdered) (some-injective e) (replace_at-IsOrdered i new ts (f new refl) all)

module _ ⦃rows : RowLocks⦄ where
  pub advance-IsOrdered :
      (i : ℕ) (ts next : List Transaction)
      → All IsOrdered ts
      → advance i ts ≡ some next
      → All IsOrdered next
  unfolding advance
  advance-IsOrdered i ts next all e = elim (Option-cases (get_elem? ts i)) [
    | inl missing ↦ absurd cc
    | inr (t, found) ↦
        put_back-IsOrdered i ts next (advanced (must_wait i t.wanted ts) t.held t.wanted)
          (λ new a.
            advanced-IsOrdered (must_wait i t.wanted ts) t.held t.wanted new
              (get_elem?-IsOrdered i ts t all found) a)
          all (rw (advance, found) at e)
  ]

  pub run-IsOrdered :
      (schedule : List ℕ) (ts next : List Transaction)
      → All IsOrdered ts
      → run schedule ts ≡ some next
      → All IsOrdered next
  unfolding run
  run-IsOrdered [] ts next all e = subst (All IsOrdered) (some-injective e) all
  run-IsOrdered (i ∷ schedule) ts next all e = elim (Option-cases (advance i ts)) [
    | inl missing ↦ absurd cc
    | inr (middle, step) ↦
        run-IsOrdered schedule middle next (advance-IsOrdered i ts middle all step)
          (rw (run, step) at e)
  ]
