-- ===== src/Prelude/Table.antt =====
-- A table with a key: a lookup of one row and an update of one row, and their laws.
use backend_assessment_chall.Prelude.{List, Option, [], arith, ite, none, refl, some, ◌∷◌, ◌≡◌, ◌≢◌}

module _ {K R : Type 0} (d : Discrete K) (key : R → K) where
  -- The row with the key, if there is one.
  unfoldable pub find_by : K → List R → Option R
  find_by k [] = none
  find_by k (r ∷ rs) = ite (d (key r) k) (some r) (find_by k rs)

  -- The table with a change made to the row that has the key.
  unfoldable pub update_by : K → (R → R) → List R → List R
  update_by k f [] = []
  update_by k f (r ∷ rs) = ite (d (key r) k) (f r ∷ rs) (r ∷ update_by k f rs)

  -- No two rows have the same key.
  abbrev pub Distinct : List R → Type 0
  Distinct [] = Unit {0}
  Distinct (r ∷ rs) = (find_by (key r) rs ≡ none) × Distinct rs

  pub find_by-key : (k : K) (rs : List R) (r : R) → find_by k rs ≡ some r → key r ≡ k
  unfolding find_by
  find_by-key k [] r h = ground arith
  find_by-key k (x ∷ rs) r h = ground (arith, find_by-key k rs r)

  pub find_by-update_by_self :
      (k : K) (f : R → R) (rs : List R) (r : R)
      → find_by k rs ≡ some r
      → key (f r) ≡ k
      → find_by k (update_by k f rs) ≡ some (f r)
  unfolding find_by update_by
  find_by-update_by_self k f [] r h e = ground arith
  find_by-update_by_self k f (x ∷ rs) r h e = ground (arith, find_by-update_by_self k f rs r)

  pub find_by-update_by_ne :
      (j k : K) (u : R) (rs : List R)
      → j ≢ k
      → key u ≡ k
      → find_by j (update_by k (λ _. u) rs) ≡ find_by j rs
  unfolding find_by update_by
  find_by-update_by_ne j k u [] h e = refl
  find_by-update_by_ne j k u (x ∷ rs) h e = ground (arith, find_by-update_by_ne j k u rs h e)

  -- The table without the rows that have the key.
  unfoldable pub erase_by : K → List R → List R
  erase_by k [] = []
  erase_by k (r ∷ rs) = ite (d (key r) k) (erase_by k rs) (r ∷ erase_by k rs)

  pub find_by-erase_by_self : (k : K) (rs : List R) → find_by k (erase_by k rs) ≡ none
  unfolding find_by erase_by
  find_by-erase_by_self k [] = refl
  find_by-erase_by_self k (x ∷ rs) = ground (arith, find_by-erase_by_self k rs)

  pub find_by-erase_by_ne :
      (j k : K) (rs : List R) → j ≢ k → find_by j (erase_by k rs) ≡ find_by j rs
  unfolding find_by erase_by
  find_by-erase_by_ne j k [] h = refl
  find_by-erase_by_ne j k (x ∷ rs) h = ground (arith, find_by-erase_by_ne j k rs h)

  -- An update of a row that keeps its key keeps the keys distinct.
  pub update_by-Distinct :
      (k : K) (u : R) (rs : List R) → key u ≡ k → Distinct rs → Distinct (update_by k (λ _. u) rs)
  unfolding find_by update_by
  update_by-Distinct k u [] e h = tt
  update_by-Distinct k u (x ∷ rs) e h =
      ground (arith, update_by-Distinct k u rs e h.1, find_by-update_by_ne (key x) k u rs)

-- Where no two rows share a key, a row found by another column is the one that its key finds.
module _ {K L R : Type 0} (d : Discrete K) (key : R → K) (e : Discrete L) (column : R → L) where
  find_by_absent :
      (k : K) (l : L) (rs : List R) (r : R)
      → find_by d key k rs ≡ none
      → find_by e column l rs ≡ some r
      → key r ≢ k
  unfolding find_by
  find_by_absent k l [] r h f = ground arith
  find_by_absent k l (x ∷ rs) r h f = ground (arith, find_by_absent k l rs r)

  pub find_by-of_column :
      (l : L) (rs : List R) (r : R)
      → Distinct d key rs
      → find_by e column l rs ≡ some r
      → find_by d key (key r) rs ≡ some r
  unfolding find_by
  find_by-of_column l [] r h f = ground arith
  find_by-of_column l (x ∷ rs) r h f =
      ground (arith, find_by-of_column l rs r h.1, find_by_absent (key x) l rs r h.0)
