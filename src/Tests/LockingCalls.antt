-- ===== src/Tests/LockingCalls.antt =====
-- Two opposite transfers and a deposit, which lock the wallets w1 and w2.
use backend_assessment_chall.Prelude.{
  All, List, [], arith, false, none, not, refl, some, sym, true, ℕ, ℕ_discrete, ◌∷◌, ◌≡◌, ◌≢◌, ◌⊎◌,
}
use backend_assessment_chall.Prelude.Text.{Text, codes, text_discrete, text_leb}
use backend_assessment_chall.Wallet.{sort_pair}
use backend_assessment_chall.Wallet.Locking.{
  LockRequest, RowLocks, Transaction, advance, advanced, begin, begin_all, get_elem?, holds,
  must_wait, one_holds, one_wallet, other_holds, replace_at, run, two_wallets, wants,
}
use backend_assessment_chall.Wallet.Locking.Furthest.{CanGoOn, IsOver}
use backend_assessment_chall.Wallet.Locking.Progress.{run-finishes}

abbrev three_requests : List LockRequest
three_requests =
    two_wallets (codes "w1") (codes "w2")
    ∷ two_wallets (codes "w2") (codes "w1")
    ∷ one_wallet (codes "w2")
    ∷ []

w1_is_not_w2 : codes "w1" ≢ codes "w2"
w1_is_not_w2 e = ground arith

-- The first transfer has w1, the deposit w2: the first waits, the second waits, the deposit ends.
abbrev waiting : List Transaction
waiting =
    record { held = codes "w1" ∷ []; wanted = codes "w2" ∷ [] }
    ∷ record { held = []; wanted = codes "w1" ∷ codes "w2" ∷ [] }
    ∷ record { held = codes "w2" ∷ []; wanted = [] }
    ∷ []

-- A row is given to one transaction at a time.
free_is_granted :
    (i : ℕ) (id : Text) (ts : List Transaction)
    → other_holds i id ts ≡ false
    → not (other_holds i id ts) ≡ true
free_is_granted i id ts free = rw free refl

instance unfoldable toy_rows : RowLocks
toy_rows = record { grants = λ i id ts. not (other_holds i id ts); grants-free = free_is_granted }

abbrev first_third : List ℕ
first_third = 0 ∷ 2 ∷ []

to_waiting : run first_third (begin_all three_requests) ≡ some waiting
unfolding toy_rows run advance get_elem? must_wait other_holds one_holds holds advanced replace_at
    begin wants sort_pair text_leb text_discrete ℕ_discrete
to_waiting = refl

first_waits : advance 0 waiting ≡ none
unfolding toy_rows advance get_elem? must_wait other_holds one_holds holds advanced text_discrete
    ℕ_discrete
first_waits = refl

run-finishes_example :
    (All IsOver waiting ⊎ CanGoOn waiting)
    × ((rest : List ℕ) × (end : List Transaction) × (run rest waiting ≡ some end) × All IsOver end)
run-finishes_example =
    run-finishes three_requests first_third waiting
      (w1_is_not_w2, ((λ e. w1_is_not_w2 (sym e)), (tt, tt))) to_waiting
