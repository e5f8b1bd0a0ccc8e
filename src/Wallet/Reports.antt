-- ===== src/Wallet/Reports.antt =====
-- `verifyInvariant` against the ledger invariant.
use backend_assessment_chall.Prelude.{
  All, List, Option, Option-cases, [], arith, inl, inr, map, none, refl, some, true, ◌∷◌, ◌≡◌,
}
use backend_assessment_chall.Prelude.Table.{Distinct, find_by}
use backend_assessment_chall.Prelude.Text.{Text, text_discrete}
use backend_assessment_chall.Schema.{Database, Wallet, wallet_by_id}
use backend_assessment_chall.Wallet.Balance.{IsSound, id_of, wallet_balance-found, wallet_by_id-id}
use backend_assessment_chall.Wallet.Reads.{check_wallet, verify_invariant, wallets_to_check}
use backend_assessment_chall.Wallet.Types.{InvariantReport, Runtime}
use backend_assessment_chall.World.{World, known_request, p2025}
use backend_assessment_chall.World.Ensures.{Outcome, Outcome-err, Outcome-ok}

-- A wallet further down is found by its own id, too.
found_below :
    (x : Wallet) (xs ys : List Wallet)
    → wallet_by_id x.id xs ≡ none
    → All (λ y. wallet_by_id y.id xs ≡ some y) ys
    → All (λ y. wallet_by_id y.id (x ∷ xs) ≡ some y) ys
unfolding wallet_by_id find_by
found_below x xs [] new h = tt
found_below x xs (y ∷ ys) new h = (ground arith, found_below x xs ys new h.1)

own_ids :
    (wallets : List Wallet)
    → Distinct text_discrete id_of wallets
    → All (λ y. wallet_by_id y.id wallets ≡ some y) wallets
unfolding wallet_by_id find_by
own_ids [] h = tt
own_ids (x ∷ xs) h = (ground arith, found_below x xs xs h.0 (own_ids xs h.1))

module _ ⦃runtime : Runtime⦄ where
  abbrev pub Matching : InvariantReport → Type 0
  Matching r = r.matches ≡ true

  check_wallet-Matching :
      (db : Database) (wallet : Wallet)
      → IsSound db
      → wallet_by_id wallet.id db.wallets ≡ some wallet
      → Matching (check_wallet db.entries wallet)
  unfolding check_wallet
  check_wallet-Matching db wallet sound found =
      ground (arith, sound.balanced wallet.id, wallet_balance-found db wallet wallet.id found)

  checks-Matching :
      (db : Database) (wallets : List Wallet)
      → IsSound db
      → All (λ y. wallet_by_id y.id db.wallets ≡ some y) wallets
      → All Matching (map (check_wallet db.entries) wallets)
  checks-Matching db [] sound h = tt
  checks-Matching db (x ∷ xs) sound h =
      (check_wallet-Matching db x sound h.0, checks-Matching db xs sound h.1)

  -- While the ledger invariant holds, every line of the report says that balance and ledger match,
  -- for one wallet and for all of them; the only failure is an id that no wallet has. Nothing
  -- changes.
  pub verify_invariant-Matching :
      (wallet_id : Option Text) (w : World)
      → IsSound w.db
      → Outcome
          (λ e w'. (e ≡ known_request p2025) × (w' ≡ w))
          (λ reports w'. All Matching reports × (w' ≡ w))
          (verify_invariant wallet_id w)
  unfolding verify_invariant wallets_to_check
  verify_invariant-Matching none w sound =
      (checks-Matching w.db w.db.wallets sound (own_ids w.db.wallets sound.distinct), refl)
  verify_invariant-Matching (some []) w sound =
      (checks-Matching w.db w.db.wallets sound (own_ids w.db.wallets sound.distinct), refl)
  verify_invariant-Matching (some (c ∷ cs)) w sound =
      elim (Option-cases (wallet_by_id (c ∷ cs) w.db.wallets)) [
        | inl missing ↦
            Outcome-err _ _ (verify_invariant (some (c ∷ cs)) w) (known_request p2025)
              (ground arith) (refl, ground arith)
        | inr (wallet, found) ↦
            Outcome-ok _ _ (verify_invariant (some (c ∷ cs)) w)
              (check_wallet w.db.entries wallet ∷ []) (ground arith)
              (
                (
                  check_wallet-Matching w.db wallet sound
                      (ground (arith, wallet_by_id-id (c ∷ cs) w.db.wallets wallet found)),
                  tt,
                ),
                ground arith,
              )
      ]
