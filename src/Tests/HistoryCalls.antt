-- ===== src/Tests/HistoryCalls.antt =====
-- A history: the service opens, Cleo registers and puts 10.00 into her wallet.
use backend_assessment_chall.Prelude.{[], refl, ℕ_discrete, ◌≡◌}
use backend_assessment_chall.Auth.{
  create_user, issue_token_pair, refresh_key, register, register_user, user_by_email, user_by_id,
}
use backend_assessment_chall.Auth.Ttl.{
  is_digit, is_space, last_unit, match_ttl, multiplier, read_ttl, trim_end, trim_start,
  ttl_to_seconds,
}
use backend_assessment_chall.Auth.Types.{RegisterDto}
use backend_assessment_chall.Prelude.Int.{pos, ◌+ℤ◌}
use backend_assessment_chall.Prelude.Table.{erase_by, find_by, update_by}
use backend_assessment_chall.Prelude.Text.{codes, text_discrete}
use backend_assessment_chall.Redis.{redis_set}
use backend_assessment_chall.Schema.{
  entry_by_key, entry_key_discrete, replace_wallet, wallet_by_id, wallet_by_user,
}
use backend_assessment_chall.Tests.Data.{shop, shop_db}
use backend_assessment_chall.Tests.Tokens.{jwt, toy_crypto}
use backend_assessment_chall.Wallet.{deposit, post_entry}
use backend_assessment_chall.Wallet.Balance.{wallet_balance}
use backend_assessment_chall.Wallet.Provision.{provision_wallet}
use backend_assessment_chall.Wallet.Queries.{
  create_entry, lock_wallet_by_id, lock_wallet_by_user_id, update_wallet,
}
use backend_assessment_chall.Wallet.Types.{DepositDto}
use backend_assessment_chall.World.{World, fits_decimal, fits_integer, random_uuid}

abbrev opening : World
opening = record shop { db = record shop_db { wallets = []; entries = [] } }

abbrev newcomer : RegisterDto
newcomer = record { email = codes "cleo@example.com"; password = codes "StrongP@ssw0rd" }

abbrev with_cleo : World
with_cleo = (register toy_crypto jwt newcomer opening).1

abbrev first_deposit : DepositDto
first_deposit = record { amount = pos 1000 }

abbrev richer : World
richer = (deposit (codes "u") first_deposit with_cleo).1

-- The deposit was made, to the wallet that the registration has made.
cleo_balance : wallet_balance (codes "uu") richer.db ≡ pos 1000
unfolding deposit lock_wallet_by_user_id lock_wallet_by_id post_entry update_wallet create_entry
    wallet_by_user wallet_by_id replace_wallet entry_by_key entry_key_discrete find_by update_by
    text_discrete ℕ_discrete ◌+ℤ◌ fits_decimal fits_integer random_uuid wallet_balance register
    register_user create_user provision_wallet issue_token_pair redis_set refresh_key erase_by
    user_by_email user_by_id ttl_to_seconds trim_start trim_end is_space match_ttl read_ttl
    last_unit is_digit multiplier
cleo_balance = refl
