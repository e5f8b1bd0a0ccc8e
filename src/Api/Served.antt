-- ===== src/Api/Served.antt =====
-- The states that the HTTP interface leads to, whatever is sent to it.
use backend_assessment_chall.Prelude.{All, Option, [], inl, inr, none, subst, sym, ℕ, ◌+◌, ◌≡◌}
use backend_assessment_chall.Api.{serve}
use backend_assessment_chall.Api.Bodies.Amounts.{deposit_dto-amount, transfer_dto-amount}
use backend_assessment_chall.Api.Effects.{
  Handled, deposit_call, event_call, login_call, logout_call, purchase_call, refresh_call,
  register_call, serve-Stepped, transfer_call,
}
use backend_assessment_chall.Api.Types.{Edge, Request, Route}
use backend_assessment_chall.Auth.Types.{Crypto, CurrentUserPayload, JwtConfig}
use backend_assessment_chall.Bank.Backing.{IsBacked, external_sum}
use backend_assessment_chall.FlashSale.Types.{Environment}
use backend_assessment_chall.History.{
  Reachable, Step, after, creates_event, deposits, logs_in, logs_out, opens, purchases, refreshes,
  registers, time_passes, transfers,
}
use backend_assessment_chall.History.Backed.{Reachable-IsBacked}
use backend_assessment_chall.History.Reached.{Reachable-verify_invariant}
use backend_assessment_chall.Wallet.Balance.{IsSound}
use backend_assessment_chall.Wallet.Reads.{verify_invariant}
use backend_assessment_chall.Wallet.Reports.{Matching}
use backend_assessment_chall.Wallet.Transfer.Sound.{total_balance}
use backend_assessment_chall.Wallet.Types.{Runtime}
use backend_assessment_chall.World.{World}
use backend_assessment_chall.World.Ensures.{Outcome}

module _ ⦃runtime : Runtime⦄ (crypto : Crypto) (config : JwtConfig) (env : Environment)
    (edge : Edge) where
  -- The service opens with no wallets and an empty ledger; then requests are answered, one after the
  -- other, each with any route, headers, body and parameters; and time passes.
  pub data Served : World → Type 0 where
    opened : (w : World) → w.db.wallets ≡ [] → w.db.entries ≡ [] → Served w
    served :
        {w : World}
        → Served w
        → (request : Request) → Served (serve crypto config env edge request w).1
    waited : {w : World} → Served w → (ms : ℕ) → Served (record w { clock = w.clock + ms })

  Handled-Step :
      (request : Request) {w v : World} {route : Route} {u : Option CurrentUserPayload}
      → Handled crypto config env edge request w route u v
      → Step crypto config env w v
  Handled-Step request {w} (register_call dto) = registers dto w
  Handled-Step request {w} (login_call dto) = logs_in dto w
  Handled-Step request {w} (refresh_call token) = refreshes token w
  Handled-Step request {w} (logout_call token) = logs_out token w
  Handled-Step request {w} (deposit_call user dto is_user e) =
      deposits user.user_id dto w (deposit_dto-amount request.body dto e)
  Handled-Step request {w} (transfer_call user dto is_user e) =
      transfers user.user_id dto w (transfer_dto-amount edge request.body dto e)
  Handled-Step request {w} (event_call dto) = creates_event dto w
  Handled-Step request {w} (purchase_call user dto is_user e) = purchases user.user_id dto w

  after_request :
      (w : World) (request : Request)
      → Reachable crypto config env w
      → Reachable crypto config env (serve crypto config env edge request w).1
  after_request w request reached = elim (serve-Stepped crypto config env edge request w) [
    | inl same ↦ subst (λ x. Reachable crypto config env x) (sym same) reached
    | inr (u, step, admitted) ↦ after reached (Handled-Step request step)
  ]

  Served-Reachable : {w : World} → Served w → Reachable crypto config env w
  Served-Reachable (opened w none_yet no_entries) = opens w none_yet no_entries
  Served-Reachable (served {w} so_far request) = after_request w request (Served-Reachable so_far)
  Served-Reachable (waited {w} so_far ms) = after (Served-Reachable so_far) (time_passes ms w)

  -- Whatever requests are sent to the service, one after the other, from an empty ledger on, with
  -- tokens and bodies of any kind: each balance is the sum of its entries and is not negative, and
  -- `verifyInvariant` says match on every line. It is supposed that what other requests do while a
  -- purchase sleeps keeps the ledger invariant.
  pub Served-verify_invariant :
      (others : (ms : ℕ) (w : World) → IsSound w.db → IsSound (env.elapse ms w).db) (w : World)
      → Served w
      → IsSound w.db
        × Outcome
            (λ e w'. ⊥)
            (λ reports w'. All Matching reports × (w' ≡ w))
            (verify_invariant none w)
  Served-verify_invariant others w so_far =
      Reachable-verify_invariant crypto config env others w (Served-Reachable so_far)

  -- Whatever requests are sent to the service, one after the other, from an empty ledger on: the sum
  -- of all balances is the sum of the entries for deposits and purchases, so transfers make no money
  -- and lose none. It is supposed that what other requests do while a purchase sleeps keeps this and
  -- the ledger invariant.
  pub Served-backed :
      (others : (ms : ℕ) (w : World) → IsBacked w.db → IsBacked (env.elapse ms w).db) (w : World)
      → Served w
      → total_balance w.db.wallets ≡ external_sum w.db.entries
  Served-backed others w so_far =
      (Reachable-IsBacked crypto config env others (Served-Reachable so_far)).backed
