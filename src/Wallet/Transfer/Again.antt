-- ===== src/Wallet/Transfer/Again.antt =====
-- `WalletService.transfer` as a whole: the invariant, and both lines of defence of its idempotency.
use backend_assessment_chall.Prelude.{
  Option, [], arith, if_neg, if_pos, inl, inr, none, refl, some, ◌∷◌, ◌≡◌, ◌≢◌, ◌⊎◌,
}
use backend_assessment_chall.Prelude.Int.{pos, ◌≤ℤ◌}
use backend_assessment_chall.Prelude.Text.{Text, text_discrete}
use backend_assessment_chall.Redis.{
  live_value, redis_get, redis_set, stored_by_key, stored_by_key-set,
}
use backend_assessment_chall.Wallet.{
  idempotency_ttl_seconds, transfer, transfer_body, transfer_cached, transfer_key,
  transfer_uncached,
}
use backend_assessment_chall.Wallet.Balance.{IsSound}
use backend_assessment_chall.Wallet.Transfer.Settlement.{
  Settled-IsSound, Settled-total, transfer_body-Settled,
}
use backend_assessment_chall.Wallet.Transfer.Sound.{total_balance}
use backend_assessment_chall.Wallet.Types.{Runtime, TransferDto, TransferResult}
use backend_assessment_chall.World.{World, ok, pure, transaction, ◌>>◌}
use backend_assessment_chall.World.Ensures.{>>=-Ensures, Ensures, Ensures-nothing}

module _ ⦃runtime : Runtime⦄ where
  open runtime use {stringify, parse, parse-stringify, stringify-nonempty}

  -- `transfer` writes to the data base by its transaction, or not at all.
  pub transfer_writes :
      (user_id : Text) (dto : TransferDto) (w : World)
      → ((transfer user_id dto w).1.db ≡ w.db)
        ⊎ ((dto.to_user_id ≢ user_id)
            × ((transfer user_id dto w).1.db ≡ (transaction (transfer_body user_id dto) w).1.db))
  unfolding transfer transfer_cached transfer_uncached redis_get redis_set
  transfer_writes user_id dto w = ground arith

  -- A transfer of an amount that is not negative keeps the ledger invariant, however it ends.
  pub transfer-IsSound :
      (user_id : Text) (dto : TransferDto) (w : World)
      → pos 0 ≤ℤ dto.amount
      → IsSound w.db
      → IsSound (transfer user_id dto w).1.db
  transfer-IsSound user_id dto w nonneg sound = elim (transfer_writes user_id dto w) [
    | inl same ↦ rw same sound
    | inr (ne, written) ↦ rw written (
        Settled-IsSound user_id dto w (transaction (transfer_body user_id dto) w) nonneg sound
          (transfer_body-Settled user_id dto w sound ne))
  ]

  -- From a state where the ledger invariant holds, no transfer changes the sum of all balances,
  -- however it ends and whatever the amount.
  pub transfer-total :
      (user_id : Text) (dto : TransferDto) (w : World)
      → IsSound w.db
      → total_balance (transfer user_id dto w).1.db.wallets ≡ total_balance w.db.wallets
  transfer-total user_id dto w sound = elim (transfer_writes user_id dto w) [
    | inl same ↦ rw same refl
    | inr (ne, written) ↦ rw written (
        Settled-total user_id dto w (transaction (transfer_body user_id dto) w)
          (transfer_body-Settled user_id dto w sound ne))
  ]

  -- Redis has the reply to the key, and the reply is the one given.
  abbrev pub Cached : Text → Text → TransferResult → World → Type 0
  Cached user_id key r w =
      (text : Text) × (live_value w.clock (stored_by_key (transfer_key user_id key) w.redis)
        ≡ some text)
      × (text ≢ [])
      × (parse text ≡ r)

  stored-Cached :
      (user_id key : Text) (r : TransferResult) (w : World)
      → Cached user_id key r
          (redis_set (transfer_key user_id key) (stringify r) idempotency_ttl_seconds w).1
  unfolding redis_set
  stored-Cached user_id key r w = (
    stringify r,
    rw (stored_by_key-set (transfer_key user_id key) (stringify r) idempotency_ttl_seconds w)
        (ground arith),
    stringify-nonempty r,
    parse-stringify r,
  )

  transfer_uncached-Cached :
      (user_id : Text) (dto : TransferDto) (w : World)
      → Ensures (λ r w'. Cached user_id dto.idempotency_key r w') (transfer_uncached user_id dto w)
  unfolding transfer_uncached redis_set
  transfer_uncached-Cached user_id dto w =
      >>=-Ensures {P = λ a w'. Unit {0}} (transaction (transfer_body user_id dto))
        (λ result.
          redis_set (transfer_key user_id dto.idempotency_key) (stringify result)
            idempotency_ttl_seconds
          >> pure result)
        w (Ensures-nothing _)
        (λ r w' _. record { holds = stored-Cached user_id dto.idempotency_key r w' })

  Cached-reply :
      (user_id : Text) (dto : TransferDto) (w : World) (text : Option Text)
      → live_value w.clock (stored_by_key (transfer_key user_id dto.idempotency_key) w.redis) ≡ text
      → Ensures
          (λ r w'. Cached user_id dto.idempotency_key r w')
          (transfer_cached user_id dto text w)
  unfolding transfer_cached
  Cached-reply user_id dto w none e = transfer_uncached-Cached user_id dto w
  Cached-reply user_id dto w (some []) e = transfer_uncached-Cached user_id dto w
  Cached-reply user_id dto w (some (c ∷ cs)) e = record { holds = (c ∷ cs, e, (λ empty. cc), refl) }

  transfer-Ensures :
      (user_id : Text) (dto : TransferDto) (w : World)
      → Ensures (λ r w'. Cached user_id dto.idempotency_key r w') (transfer user_id dto w)
  unfolding transfer redis_get
  transfer-Ensures user_id dto w = elim (text_discrete dto.to_user_id user_id) [
    | yes self ↦ rw (if_pos _ self) (record { holds = tt })
    | no other ↦ rw (if_neg _ other) (Cached-reply user_id dto w _ refl)
  ]

  -- Once `transfer` has returned, Redis has the reply.
  pub transfer-Cached :
      (user_id : Text) (dto : TransferDto) (w w' : World) (r : TransferResult)
      → transfer user_id dto w ≡ (ok r, w')
      → Cached user_id dto.idempotency_key r w'
  transfer-Cached user_id dto w w' r done = (rw done at (transfer-Ensures user_id dto w)).holds

  -- After a transfer has returned, a request of the same user with the same key, in the state
  -- that it left, gets the same reply from Redis, whatever other recipient and amount it names,
  -- and changes nothing. It is supposed that the request is not one to oneself, which is refused
  -- first.
  pub transfer-again :
      (user_id : Text) (dto dto' : TransferDto) (w w' : World) (r : TransferResult)
      → transfer user_id dto w ≡ (ok r, w')
      → dto'.idempotency_key ≡ dto.idempotency_key
      → dto'.to_user_id ≢ user_id
      → transfer user_id dto' w' ≡ (ok r, w')
  unfolding transfer redis_get transfer_cached
  transfer-again user_id dto dto' w w' r done same ne =
      let (text, live, nonempty, reply) = transfer-Cached user_id dto w w' r done in ground arith
