-- ===== src/Wallet/Transfer/Replay.antt =====
-- The second line of defence of `WalletService.transfer`: its transaction, when the ledger has an
-- entry with the key and Redis has no reply.
use backend_assessment_chall.Prelude.{none, true}
use backend_assessment_chall.Prelude.Text.{Text}
use backend_assessment_chall.Schema.{Wallet}
use backend_assessment_chall.Wallet.Types.{Runtime, TransferResult}
use backend_assessment_chall.World.{World}

module _ ⦃runtime : Runtime⦄ where
  open runtime use {decimal_to_string}

  -- The reply to a replay.
  abbrev pub as_replay : TransferResult → TransferResult
  as_replay r = record r { to_balance = none; replayed = true }
