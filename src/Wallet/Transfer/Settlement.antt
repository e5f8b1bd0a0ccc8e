-- ===== src/Wallet/Transfer/Settlement.antt =====
-- The whole transaction of `WalletService.transfer`, and `transfer` around it.
use backend_assessment_chall.Prelude.{
  List, Option-cases, arith, inl, inr, refl, some, ◌≡◌, ◌≢◌, ◌⊎◌,
}
use backend_assessment_chall.Prelude.Int.{pos, ◌≤ℤ◌}
use backend_assessment_chall.Prelude.Table.{find_by-key, find_by-of_column}
use backend_assessment_chall.Prelude.Text.{Text, text_discrete}
use backend_assessment_chall.Schema.{
  Database, LedgerEntry, LedgerType, Wallet, entry_by_key, wallet_by_id, wallet_by_user,
}
use backend_assessment_chall.Wallet.{replay_transfer, transfer_body}
use backend_assessment_chall.Wallet.Balance.{IsSound, id_of}
use backend_assessment_chall.Wallet.Transfer.{Transferred, transfer_locked-Transferred}
use backend_assessment_chall.Wallet.Transfer.Sound.{
  Transferred-IsSound, Transferred-total, total_balance,
}
use backend_assessment_chall.Wallet.Types.{Runtime, TransferDto, TransferResult}
use backend_assessment_chall.World.{Result, World, err, ok, transaction}
use backend_assessment_chall.World.Ensures.{
  Atomic, Atomic-implies, Ensures, Ensures-implies, transaction-Atomic,
}

-- In a sound data base the row that a user's id finds is the row that its own id finds.
pub wallet_by_id-owner :
    (user_id : Text) (db : Database) (wallet : Wallet)
    → IsSound db
    → wallet_by_user user_id db.wallets ≡ some wallet
    → wallet_by_id wallet.id db.wallets ≡ some wallet
unfolding wallet_by_user wallet_by_id
wallet_by_id-owner user_id db wallet sound =
    find_by-of_column text_discrete id_of text_discrete (λ w. w.user_id) user_id db.wallets wallet
      sound.distinct

wallet_by_user-user :
    (user_id : Text) (wallets : List Wallet) (wallet : Wallet)
    → wallet_by_user user_id wallets ≡ some wallet
    → wallet.user_id ≡ user_id
unfolding wallet_by_user
wallet_by_user-user = find_by-key text_discrete (λ w. w.user_id)

-- Two users have two wallets.
pub owners_apart :
    (u v : Text) (db : Database) (s t : Wallet)
    → IsSound db
    → v ≢ u
    → wallet_by_user u db.wallets ≡ some s
    → wallet_by_user v db.wallets ≡ some t
    → t.id ≢ s.id
owners_apart u v db s t sound ne es et same = ne (
    cc (
      wallet_by_id-owner u db s sound es,
      wallet_by_id-owner v db t sound et,
      wallet_by_user-user u db.wallets s es,
      wallet_by_user-user v db.wallets t et,
    ))

module _ ⦃runtime : Runtime⦄ where
  -- The wallets of the two users are `s` and `t`, and either the ledger had the transfer, which was
  -- replayed with no change, or it was made.
  abbrev pub Settled :
      Text → TransferDto → World → Wallet → Wallet → TransferResult → World → Type 0
  Settled user_id dto w s t r w' =
      (wallet_by_user user_id w.db.wallets ≡ some s)
      × (wallet_by_user dto.to_user_id w.db.wallets ≡ some t)
      × (((w'.db ≡ w.db)
            × ((e : LedgerEntry) × (entry_by_key
                    (s.id, dto.idempotency_key, LedgerType.transfer_out) w.db.entries
                  ≡ some e)
                × (r ≡ replay_transfer s t e dto.idempotency_key)))
          ⊎ Transferred s t dto w.clock w.db r w'.db)

  replays :
      (user_id : Text) (dto : TransferDto) (w : World) (s t : Wallet) (e : LedgerEntry)
      → wallet_by_user user_id w.db.wallets ≡ some s
      → wallet_by_user dto.to_user_id w.db.wallets ≡ some t
      → entry_by_key (s.id, dto.idempotency_key, LedgerType.transfer_out) w.db.entries ≡ some e
      → Ensures
          (λ r w'. (w'.db ≡ w.db) × (r ≡ replay_transfer s t e dto.idempotency_key))
          (transfer_body user_id dto w)
  unfolding transfer_body
  replays user_id dto w s t e es et made = ground arith

  body_found :
      (user_id : Text) (dto : TransferDto) (w : World) (s t : Wallet)
      → IsSound w.db
      → dto.to_user_id ≢ user_id
      → wallet_by_user user_id w.db.wallets ≡ some s
      → wallet_by_user dto.to_user_id w.db.wallets ≡ some t
      → Ensures (Settled user_id dto w s t) (transfer_body user_id dto w)
  unfolding transfer_body
  body_found user_id dto w s t sound ne es et =
      elim (Option-cases
        (entry_by_key (s.id, dto.idempotency_key, LedgerType.transfer_out) w.db.entries)) [
          | inl fresh ↦ ground (
            arith,
            transfer_locked-Transferred s t s t dto w (wallet_by_id-owner user_id w.db s sound es)
                (wallet_by_id-owner dto.to_user_id w.db t sound et)
                (owners_apart user_id dto.to_user_id w.db s t sound ne es et),
          )
          | inr (e, made) ↦
              Ensures-implies (transfer_body user_id dto w) (replays user_id dto w s t e es et made)
                (λ r w' p. (es, et, inl (p.0, (e, made, p.1))))
        ]

  -- A transfer that throws leaves the data base as it was. One that returns has found its key
  -- among the sender's outgoing transfers, and replies with that transfer and changes nothing; or
  -- the sender's wallet covered the amount, and it has moved to the recipient's wallet, with one
  -- entry for each of the two. It is supposed that the ledger invariant holds before, and that
  -- the recipient is another user.
  pub transfer_body-Settled :
      (user_id : Text) (dto : TransferDto) (w : World)
      → IsSound w.db
      → dto.to_user_id ≢ user_id
      → Atomic w.db
          (λ r w'. (s : Wallet) × (t : Wallet) × Settled user_id dto w s t r w')
          (transaction (transfer_body user_id dto) w)
  unfolding transfer_body
  transfer_body-Settled user_id dto w sound ne =
      elim (Option-cases (wallet_by_user user_id w.db.wallets)) [
        | inl missing ↦ ground arith
        | inr (s, es) ↦ elim (Option-cases (wallet_by_user dto.to_user_id w.db.wallets)) [
          | inl missing ↦ ground arith
          | inr (t, et) ↦
              Atomic-implies w.db _ _ (transaction (transfer_body user_id dto) w)
                (transaction-Atomic (transfer_body user_id dto) w
                  (body_found user_id dto w s t sound ne es et))
                (λ r w' p. (s, t, p))
        ]
      ]

  pub Settled-IsSound :
      (user_id : Text) (dto : TransferDto) (w : World) (x : Result TransferResult × World)
      → pos 0 ≤ℤ dto.amount
      → IsSound w.db
      → Atomic w.db (λ r w'. (s : Wallet) × (t : Wallet) × Settled user_id dto w s t r w') x
      → IsSound x.1.db
  Settled-IsSound user_id dto w (ok r, w') nonneg sound (s, t, (es, et, inl p)) = rw p.0 sound
  Settled-IsSound user_id dto w (ok r, w') nonneg sound (s, t, (es, et, inr p)) =
      Transferred-IsSound s t dto w.clock w.db w'.db r nonneg sound p
  Settled-IsSound user_id dto w (err e, w') nonneg sound same = rw same sound

  pub Settled-total :
      (user_id : Text) (dto : TransferDto) (w : World) (x : Result TransferResult × World)
      → Atomic w.db (λ r w'. (s : Wallet) × (t : Wallet) × Settled user_id dto w s t r w') x
      → total_balance x.1.db.wallets ≡ total_balance w.db.wallets
  Settled-total user_id dto w (ok r, w') (s, t, (es, et, inl p)) = rw p.0 refl
  Settled-total user_id dto w (ok r, w') (s, t, (es, et, inr p)) =
      Transferred-total s t dto w.clock w.db w'.db r p
  Settled-total user_id dto w (err e, w') same = rw same refl
