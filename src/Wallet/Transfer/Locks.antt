-- ===== src/Wallet/Transfer/Locks.antt =====
-- The order of the row locks in `WalletService.transfer`.
use backend_assessment_chall.Prelude.{List, [], arith, true, ◌++◌, ◌∷◌, ◌≡◌}
use backend_assessment_chall.Prelude.Text.{Text, text_leb, text_leb_antisym, text_leb_total}
use backend_assessment_chall.Schema.{Wallet}
use backend_assessment_chall.Wallet.{sort_pair, transfer_locked}
use backend_assessment_chall.Wallet.Queries.{create_entry, lock_wallet_by_id, update_wallet}
use backend_assessment_chall.Wallet.Types.{Runtime, TransferDto, TransferResult}
use backend_assessment_chall.World.{World, ok}
use backend_assessment_chall.World.Ensures.{Ensures}

sort_pair-swap : (a b : Text) → sort_pair a b ≡ sort_pair b a
unfolding sort_pair
sort_pair-swap a b = ground (arith, text_leb_total a b, text_leb_antisym a b)

sort_pair-le : (a b : Text) → text_leb (sort_pair a b).0 (sort_pair a b).1 ≡ true
unfolding sort_pair
sort_pair-le a b = ground (arith, text_leb_total a b)

-- The locks that a transfer between the two wallets adds to those held.
abbrev pub locked_pair : List Text → Text → Text → List Text
locked_pair held a b = (held ++ ((sort_pair a b).0 ∷ [])) ++ ((sort_pair a b).1 ∷ [])

module _ ⦃runtime : Runtime⦄ where
  transfer_locked-locks :
      (sender_ref receiver_ref : Wallet) (dto : TransferDto) (w : World)
      → Ensures
          (λ r w'. w'.locks ≡ locked_pair w.locks sender_ref.id receiver_ref.id)
          (transfer_locked sender_ref receiver_ref dto w)
  unfolding transfer_locked lock_wallet_by_id update_wallet create_entry
  transfer_locked-locks sender_ref receiver_ref dto w = ground arith

  opposite-locks :
      (a b : Wallet) (there back : TransferDto) (w w' v v' : World) (r q : TransferResult)
      → transfer_locked a b there w ≡ (ok r, w')
      → transfer_locked b a back v ≡ (ok q, v')
      → w.locks ≡ v.locks
      → w'.locks ≡ v'.locks
  opposite-locks a b there back w w' v v' r q p s same =
      let first = (rw p at (transfer_locked-locks a b there w)).holds in
      let second = (rw s at (transfer_locked-locks b a back v)).holds in
      ground (arith, first, second, sort_pair-swap a.id b.id)

  -- A transfer that returns has locked its two rows in ascending order of their ids, and a transfer
  -- the other way round, which starts with the same locks held, locks the same rows in the same
  -- order: two opposite transfers cannot each hold the row that the other waits for.
  pub transfer_locked_order :
      (a b : Wallet) (there back : TransferDto) (w w' v v' : World) (r q : TransferResult)
      → transfer_locked a b there w ≡ (ok r, w')
      → transfer_locked b a back v ≡ (ok q, v')
      → w.locks ≡ v.locks
      → (w'.locks ≡ v'.locks)
        × (w'.locks ≡ locked_pair w.locks a.id b.id)
        × (text_leb (sort_pair a.id b.id).0 (sort_pair a.id b.id).1 ≡ true)
  transfer_locked_order a b there back w w' v v' r q p s same = (
    opposite-locks a b there back w w' v v' r q p s same,
    (rw p at (transfer_locked-locks a b there w)).holds,
    sort_pair-le a.id b.id,
  )
