-- ===== src/Wallet/Statement.antt =====
-- `getMe`: the balance with the newest entries.
use backend_assessment_chall.Prelude.{All, List, [], ◌∷◌, ◌≡◌, ◌≤◌}
use backend_assessment_chall.Prelude.Text.{Text}
use backend_assessment_chall.Schema.{LedgerEntry, Wallet}
use backend_assessment_chall.World.{World}

-- Every entry is at least as new as the next one.
abbrev pub IsNewestFirst : List LedgerEntry → Type 0
IsNewestFirst [] = Unit
IsNewestFirst (e ∷ []) = Unit
IsNewestFirst (e ∷ x ∷ es) = (x.created_at ≤ e.created_at) × IsNewestFirst (x ∷ es)

abbrev pub BelongTo : Text → List LedgerEntry → Type 0
BelongTo id es = All (λ e. e.wallet_id ≡ id) es
