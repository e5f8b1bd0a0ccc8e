-- ===== src/History/Reached.antt =====
-- The ledger invariant in every state that is reached.
use backend_assessment_chall.Prelude.{All, List, [], arith, none, refl, ℕ, ◌∷◌, ◌≡◌}
use backend_assessment_chall.Auth.{
  issue_token_pair, login, logout, refresh, refuse_reuse, revoke_all_sessions, rotate,
  verify_refresh_token,
}
use backend_assessment_chall.Auth.Registration.{register-IsSound}
use backend_assessment_chall.Auth.Types.{Crypto, JwtConfig, LoginDto}
use backend_assessment_chall.FlashSale.{create_event}
use backend_assessment_chall.FlashSale.Creation.{Created, create_event-creates, new_event}
use backend_assessment_chall.FlashSale.Money.{purchase-IsSound}
use backend_assessment_chall.FlashSale.Types.{CreateFlashSaleEventDto, Environment}
use backend_assessment_chall.History.{
  Reachable, Step, after, creates_event, deposits, logs_in, logs_out, opens, purchases, refreshes,
  registers, time_passes, transfers,
}
use backend_assessment_chall.Prelude.Table.{find_by}
use backend_assessment_chall.Prelude.Text.{Text}
use backend_assessment_chall.Redis.{redis_del, redis_get, redis_keys, redis_set}
use backend_assessment_chall.Schema.{Database, FlashSaleEvent, wallet_by_id}
use backend_assessment_chall.Wallet.Balance.{IsSound, wallet_balance}
use backend_assessment_chall.Wallet.Deposit.{deposit-IsSound}
use backend_assessment_chall.Wallet.Reads.{ledger_sum, verify_invariant, wallets_to_check}
use backend_assessment_chall.Wallet.Reports.{Matching, verify_invariant-Matching}
use backend_assessment_chall.Wallet.Transfer.Again.{transfer-IsSound}
use backend_assessment_chall.Wallet.Types.{Runtime}
use backend_assessment_chall.World.{Result, World, err, ok, random_uuid}
use backend_assessment_chall.World.Ensures.{Outcome}

pub empty-IsSound : (db : Database) → db.wallets ≡ [] → db.entries ≡ [] → IsSound db
unfolding wallet_balance wallet_by_id find_by ledger_sum
empty-IsSound db none_yet no_entries = record {
  balanced = λ id. rw (none_yet, no_entries) refl;
  nonneg = λ id. rw none_yet (ground arith);
  distinct = rw none_yet tt;
}

module _ (crypto : Crypto) (config : JwtConfig) where
  pub login-db : (dto : LoginDto) (w : World) → (login crypto config dto w).1.db ≡ w.db
  unfolding login issue_token_pair random_uuid redis_set
  login-db dto w = ground arith

  pub refresh-db : (token : Text) (w : World) → (refresh crypto config token w).1.db ≡ w.db
  unfolding refresh verify_refresh_token rotate refuse_reuse revoke_all_sessions redis_get redis_del
      redis_keys issue_token_pair random_uuid redis_set
  refresh-db token w = ground arith

  pub logout-db : (token : Text) (w : World) → (logout crypto config token w).1.db ≡ w.db
  unfolding logout verify_refresh_token redis_del
  logout-db token w = ground arith

same_ledger :
    (db : Database) (events : List FlashSaleEvent)
    → IsSound db
    → IsSound (record db { events = events })
unfolding wallet_balance
same_ledger db events sound = record {
  balanced = sound.balanced;
  nonneg = sound.nonneg;
  distinct = sound.distinct;
}

Created-IsSound :
    (dto : CreateFlashSaleEventDto) (w : World) (x : Result FlashSaleEvent × World)
    → IsSound w.db
    → Outcome (λ e w'. w'.db ≡ w.db) (Created dto w) x
    → IsSound x.1.db
Created-IsSound dto w (err e, w') sound same = rw same sound
Created-IsSound dto w (ok event, w') sound (same, db, clock, p) =
    rw db (same_ledger w.db (new_event dto w ∷ w.db.events) sound)

pub create_event-IsSound :
    (dto : CreateFlashSaleEventDto) (w : World) → IsSound w.db → IsSound (create_event dto w).1.db
create_event-IsSound dto w sound =
    Created-IsSound dto w (create_event dto w) sound (create_event-creates dto w)

module _ ⦃runtime : Runtime⦄ (crypto : Crypto) (config : JwtConfig) (env : Environment)
    (others : (ms : ℕ) (w : World) → IsSound w.db → IsSound (env.elapse ms w).db) where
  Step-IsSound : {v w : World} → Step crypto config env v w → IsSound v.db → IsSound w.db
  Step-IsSound (registers dto w) sound = register-IsSound crypto config dto w sound
  Step-IsSound (logs_in dto w) sound = rw (login-db crypto config dto w) sound
  Step-IsSound (refreshes token w) sound = rw (refresh-db crypto config token w) sound
  Step-IsSound (logs_out token w) sound = rw (logout-db crypto config token w) sound
  Step-IsSound (deposits user_id dto w enough) sound = deposit-IsSound user_id dto w enough sound
  Step-IsSound (transfers user_id dto w enough) sound = transfer-IsSound user_id dto w enough sound
  Step-IsSound (creates_event dto w) sound = create_event-IsSound dto w sound
  Step-IsSound (purchases user_id dto w) sound = purchase-IsSound env others user_id dto w sound
  Step-IsSound (time_passes ms w) sound = sound

  -- The ledger invariant holds in every state that is reached, if what other requests do while a
  -- purchase sleeps keeps it.
  Reachable-IsSound : {w : World} → Reachable crypto config env w → IsSound w.db
  Reachable-IsSound (opens w none_yet no_entries) = empty-IsSound w.db none_yet no_entries
  Reachable-IsSound (after reached step) = Step-IsSound step (Reachable-IsSound reached)

  -- In every such state the ledger invariant holds, and `verifyInvariant` says match on every line.
  pub Reachable-verify_invariant :
      (w : World)
      → Reachable crypto config env w
      → IsSound w.db
        × Outcome
            (λ e w'. ⊥)
            (λ reports w'. All Matching reports × (w' ≡ w))
            (verify_invariant none w)
  unfolding verify_invariant wallets_to_check
  Reachable-verify_invariant w reached =
      let sound = Reachable-IsSound reached in (sound, verify_invariant-Matching none w sound)
