-- ===== src/Wallet/Locking.antt =====
-- Transactions of src/modules/wallet/wallet.service.ts that lock wallet rows at the same time
-- (`SELECT … FOR UPDATE`). PostgreSQL grants a row or lets the transaction wait, and takes the rows back
-- when the transaction is over; a transaction that has all its rows ends.
pub mod Ordering
pub mod Work
pub mod Furthest
pub mod Progress
-- What a transaction will lock: the wallet of a deposit or a deduction, or the two of a transfer.
use backend_assessment_chall.Prelude.{
  Bool, List, Option, [], false, if◌then◌else◌, ite, none, not, some, suc, true, zero, ℕ, ◌||◌, ◌∷◌,
  ◌≡◌,
}
use backend_assessment_chall.Prelude.Text.{Text, text_discrete}
use backend_assessment_chall.Wallet.{sort_pair}

pub data LockRequest : Type 0 where
  one_wallet : Text → LockRequest
  two_wallets : Text → Text → LockRequest

-- The rows in the order in which they are locked.
unfoldable pub wants : LockRequest → List Text
unfolding sort_pair
wants (one_wallet id) = id ∷ []
wants (two_wallets sender receiver) =
    (sort_pair sender receiver).0 ∷ (sort_pair sender receiver).1 ∷ []

-- A transaction, with the rows that it holds and those that it has still to lock.
pub record Transaction : Type 0 where
  pub held : List Text
  pub wanted : List Text

-- It has not begun to lock.
unfoldable pub begin : LockRequest → Transaction
unfolding wants
begin request = record { held = []; wanted = wants request }

abbrev pub finished : Transaction
finished = record { held = []; wanted = [] }

unfoldable pub holds : Text → List Text → Bool
holds id [] = false
holds id (x ∷ xs) = ite (text_discrete x id) true false || holds id xs

unfoldable pub one_holds : Text → List Transaction → Bool
one_holds id [] = false
one_holds id (t ∷ ts) = holds id t.held || one_holds id ts

-- Whether a transaction other than the ith holds the row.
unfoldable pub other_holds : ℕ → Text → List Transaction → Bool
other_holds i id [] = false
other_holds zero id (t ∷ ts) = one_holds id ts
other_holds (suc i) id (t ∷ ts) = holds id t.held || other_holds i id ts

unfoldable pub get_elem? : List Transaction → ℕ → Option Transaction
get_elem? [] i = none
get_elem? (t ∷ ts) zero = some t
get_elem? (t ∷ ts) (suc i) = get_elem? ts i

unfoldable pub replace_at : ℕ → Transaction → List Transaction → List Transaction
replace_at i new [] = []
replace_at zero new (t ∷ ts) = new ∷ ts
replace_at (suc i) new (t ∷ ts) = t ∷ replace_at i new ts

-- The next statement of a transaction that holds some rows and wants others, if it has not to wait:
-- it locks its next row, or it ends.
unfoldable pub advanced : Bool → List Text → List Text → Option Transaction
advanced wait held (id ∷ rest) =
    if wait then none else some (record { held = id ∷ held; wanted = rest })
advanced wait [] [] = none
advanced wait (h ∷ hs) [] = some finished

-- What PostgreSQL grants: whether the ith transaction gets the row, while others hold theirs. Relied
-- on: it gets the row if no other holds it.
pub record RowLocks : Type 0 where
  pub grants : ℕ → Text → List Transaction → Bool
  pub grants-free :
      (i : ℕ) (id : Text) (ts : List Transaction)
      → other_holds i id ts ≡ false
      → grants i id ts ≡ true

module _ ⦃rows : RowLocks⦄ where
  -- Whether it must wait for the row that it wants next.
  unfoldable pub must_wait : ℕ → List Text → List Transaction → Bool
  must_wait i [] ts = false
  must_wait i (id ∷ rest) ts = not (rows.grants i id ts)

abbrev pub put_back : ℕ → List Transaction → Option Transaction → Option (List Transaction)
put_back i ts none = none
put_back i ts (some t) = some (replace_at i t ts)

module _ ⦃rows : RowLocks⦄ where
  -- The ith transaction is let go on.
  unfoldable pub advance : ℕ → List Transaction → Option (List Transaction)
  advance i ts = elim (get_elem? ts i) [
    | none ↦ none
    | some t ↦ put_back i ts (advanced (must_wait i t.wanted ts) t.held t.wanted)
  ]

  -- A schedule: which transaction goes on, time after time.
  unfoldable pub run : List ℕ → List Transaction → Option (List Transaction)
  run [] ts = some ts
  run (i ∷ schedule) ts = elim (advance i ts) [ none ↦ none | some next ↦ run schedule next ]

abbrev pub begin_all : List LockRequest → List Transaction
begin_all [] = []
begin_all (r ∷ rs) = begin r ∷ begin_all rs
