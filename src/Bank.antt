-- ===== src/Bank.antt =====
-- What the service promises about money: a bank is a balance for each wallet id, and a request does
-- one thing to it, or nothing.
pub mod Wallets
pub mod Shop
pub mod Backing
use backend_assessment_chall.Prelude.{Option, ite, some, ◌≡◌, ◌≢◌}
use backend_assessment_chall.Prelude.Int.{pos, ℤ, ◌+ℤ◌, ◌-ℤ◌, ◌≤ℤ◌}
use backend_assessment_chall.Prelude.Text.{Text, text_discrete}
use backend_assessment_chall.Schema.{Database, wallet_by_user}
use backend_assessment_chall.Wallet.Balance.{wallet_balance}
use backend_assessment_chall.Wallet.Posting.{id_in}

abbrev pub Bank : Type 0
Bank = Text → ℤ

-- The bank with the amount added to the balance of one wallet.
abbrev pub adjust : Text → ℤ → Bank → Bank
adjust id amount bank x = ite (text_discrete id x) (bank x +ℤ amount) (bank x)

abbrev pub bank_of : Database → Bank
bank_of db id = wallet_balance id db

-- The id of the user's wallet.
abbrev pub wallet_of : Text → Database → Option Text
wallet_of user_id db = id_in (wallet_by_user user_id db.wallets)

abbrev pub Same : Bank → Bank → Type 0
Same before after = (x : Text) → after x ≡ before x

-- The amount, which is not negative, is put into the wallet.
abbrev pub Credits : Option Text → ℤ → Bank → Bank → Type 0
Credits own amount before after =
    (id : Text) × (own ≡ some id) × (pos 0 ≤ℤ amount) × Same (adjust id amount before) after

-- The amount, which the wallet covers, is taken from it.
abbrev pub Debits : Option Text → ℤ → Bank → Bank → Type 0
Debits own amount before after =
    (id : Text) × (own ≡ some id)
    × (amount ≤ℤ before id)
    × Same (adjust id (pos 0 -ℤ amount) before) after

-- The amount, which is not negative and which the wallet covers, is taken from it and put into
-- another.
abbrev pub Moves : Option Text → Option Text → ℤ → Bank → Bank → Type 0
Moves own other amount before after =
    (from : Text) × (to : Text) × (own ≡ some from)
    × (other ≡ some to)
    × (to ≢ from)
    × (pos 0 ≤ℤ amount)
    × (amount ≤ℤ before from)
    × Same (adjust to amount (adjust from (pos 0 -ℤ amount) before)) after
