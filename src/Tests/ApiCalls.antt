-- ===== src/Tests/ApiCalls.antt =====
-- Requests from end to end: Ann puts 25.00 into her wallet, Bob asks for what only an ADMIN may.
use backend_assessment_chall.Prelude.{All, List, [], false, none, refl, some, ℕ_discrete, ◌∷◌, ◌≡◌}
use backend_assessment_chall.Api.{
  Reply, admit, answered_with, authorise, dispatch, is_over_limit, of_result, reply_to, serve,
  serve_action,
}
use backend_assessment_chall.Api.Banking.{Banked, serve-Banked}
use backend_assessment_chall.Api.Bodies.{
  deposit_dto, field_value, filled_string, only_fields, positive_amount, tested_string,
  transfer_dto,
}
use backend_assessment_chall.Api.Handlers.{for_current_user}
use backend_assessment_chall.Api.Replies.Statuses.{HasStatus, serve-HasStatus}
use backend_assessment_chall.Api.Retries.{serve-again}
use backend_assessment_chall.Api.Routes.{
  is_protected, required_roles, skips_throttle, success_status, throttle_of,
}
use backend_assessment_chall.Api.Served.{Served-backed, Served-verify_invariant, opened, served}
use backend_assessment_chall.Api.Types.{
  Field, Request, auth_admin_check, auth_register, transferred, wallet_deposit, wallet_transfer,
}
use backend_assessment_chall.Bank.Backing.{external_sum}
use backend_assessment_chall.Guards.{can_activate, user_of_claims, validate}
use backend_assessment_chall.Http.{absent, correlate, gen_req_id}
use backend_assessment_chall.Prelude.Int.{pos, ℤ, ◌+ℤ◌, ◌-ℤ◌}
use backend_assessment_chall.Prelude.Table.{find_by, update_by}
use backend_assessment_chall.Prelude.Text.{Text, codes, text_discrete, text_leb}
use backend_assessment_chall.Redis.{redis_get, redis_set, stored_by_key}
use backend_assessment_chall.Schema.{
  entry_by_key, entry_key_discrete, replace_wallet, wallet_by_id, wallet_by_user,
}
use backend_assessment_chall.Tests.Codec.{toy_decimal, toy_runtime}
use backend_assessment_chall.Tests.Data.{
  ann, bob, no_sleep, nobody_else, shop, shop-IsSound, shop_db,
}
use backend_assessment_chall.Tests.Edge.{toy_edge}
use backend_assessment_chall.Tests.Tokens.{jwt, toy_crypto}
use backend_assessment_chall.Validators.{number, string}
use backend_assessment_chall.Wallet.{
  deposit, post_entry, sort_pair, transfer, transfer_body, transfer_cached, transfer_locked,
  transfer_uncached,
}
use backend_assessment_chall.Wallet.Balance.{IsSound, wallet_balance}
use backend_assessment_chall.Wallet.Queries.{
  create_entry, lock_wallet_by_id, lock_wallet_by_user_id, update_wallet,
}
use backend_assessment_chall.Wallet.Reads.{verify_invariant}
use backend_assessment_chall.Wallet.Reports.{Matching}
use backend_assessment_chall.Wallet.Transfer.Sound.{total_balance}
use backend_assessment_chall.Wallet.Types.{TransferResult}
use backend_assessment_chall.World.{World, fits_decimal, fits_integer, random_uuid}
use backend_assessment_chall.World.Ensures.{Outcome}

abbrev amount_of : ℤ → List Field
amount_of n = record { name = codes "amount"; value = number n 0 } ∷ []

abbrev deposit_request : Request
deposit_request = record {
  route = wallet_deposit;
  authorization = some ann;
  correlation = absent;
  body = amount_of (pos 25);
  path_id = [];
  limit = none;
}

abbrev admin_request : Request
admin_request = record {
  route = auth_admin_check;
  authorization = some bob;
  correlation = absent;
  body = [];
  path_id = [];
  limit = none;
}

abbrev serve_toy : Request → World → Reply × World
serve_toy = serve ⦃runtime = toy_runtime⦄ toy_crypto jwt no_sleep toy_edge

-- The deposit was made.
deposited_25 : wallet_balance (codes "w1") (serve_toy deposit_request shop).1.db ≡ pos 7500
unfolding serve serve_action authorise admit is_over_limit skips_throttle throttle_of is_protected
    of_result validate user_of_claims can_activate required_roles dispatch deposit_dto only_fields
    field_value positive_amount for_current_user reply_to deposit lock_wallet_by_user_id
    lock_wallet_by_id post_entry update_wallet create_entry wallet_by_user wallet_by_id
    replace_wallet entry_by_key entry_key_discrete find_by update_by text_discrete ℕ_discrete ◌+ℤ◌
    fits_decimal fits_integer random_uuid wallet_balance
deposited_25 = refl

serve-Banked_example :
    Banked ⦃runtime = toy_runtime⦄ toy_crypto jwt no_sleep toy_edge deposit_request shop
      (serve_toy deposit_request shop).1
serve-Banked_example =
    serve-Banked ⦃runtime = toy_runtime⦄ toy_crypto jwt no_sleep toy_edge deposit_request shop
      nobody_else shop-IsSound

serve-HasStatus_example :
    HasStatus ⦃runtime = toy_runtime⦄ toy_crypto jwt no_sleep toy_edge deposit_request shop
      (serve_toy deposit_request shop).0
serve-HasStatus_example =
    serve-HasStatus ⦃runtime = toy_runtime⦄ toy_crypto jwt no_sleep toy_edge deposit_request shop

abbrev empty_shop : World
empty_shop = record shop { db = record shop_db { wallets = []; entries = [] } }

abbrev register_request : Request
register_request = record {
  route = auth_register;
  authorization = none;
  correlation = absent;
  body =
      record { name = codes "email"; value = string (codes "cleo@example.com") }
      ∷ record { name = codes "password"; value = string (codes "StrongP@ssw0rd") }
      ∷ [];
  path_id = [];
  limit = none;
}

abbrev cleo_deposit : Request
cleo_deposit = record deposit_request { authorization = some (codes "u") }

abbrev after_two : World
after_two = (serve_toy cleo_deposit (serve_toy register_request empty_shop).1).1

Served-verify_invariant_example :
    IsSound after_two.db
    × Outcome
        (λ e w'. ⊥)
        (λ reports w'. All (Matching ⦃runtime = toy_runtime⦄) reports × (w' ≡ after_two))
        (verify_invariant ⦃runtime = toy_runtime⦄ none after_two)
Served-verify_invariant_example =
    Served-verify_invariant ⦃runtime = toy_runtime⦄ toy_crypto jwt no_sleep toy_edge
      (λ ms w sound. sound) after_two
      (served (served (opened empty_shop refl refl) register_request) cleo_deposit)

-- Ann sends 20.00 to Bob, and sends the request once more.
abbrev transfer_request : Request
transfer_request = record {
  route = wallet_transfer;
  authorization = some ann;
  correlation = absent;
  body =
      record { name = codes "toUserId"; value = string bob }
      ∷ record { name = codes "amount"; value = number (pos 20) 0 }
      ∷ record { name = codes "idempotencyKey"; value = string (codes "k1") }
      ∷ [];
  path_id = [];
  limit = none;
}

abbrev moved_20 : TransferResult
moved_20 = record {
  from_wallet_id = codes "w1";
  to_wallet_id = codes "w2";
  amount = toy_decimal (pos 2000);
  from_balance = toy_decimal (pos 3000);
  to_balance = some (toy_decimal (pos 2000));
  reference_id = codes "k1";
  replayed = false;
}

abbrev paid_bob : World
paid_bob = (serve_toy transfer_request shop).1

paying_bob :
    serve_toy transfer_request shop
    ≡ (answered_with 200 (codes "p") (transferred moved_20), paid_bob)
unfolding serve serve_action authorise admit is_over_limit skips_throttle throttle_of is_protected
    of_result validate user_of_claims can_activate required_roles success_status dispatch
    transfer_dto only_fields field_value positive_amount tested_string filled_string
    for_current_user reply_to correlate gen_req_id transfer transfer_cached transfer_uncached
    redis_get redis_set stored_by_key transfer_body transfer_locked sort_pair text_leb toy_runtime
    lock_wallet_by_id update_wallet create_entry wallet_by_user wallet_by_id replace_wallet
    entry_by_key entry_key_discrete find_by update_by text_discrete ℕ_discrete ◌+ℤ◌ ◌-ℤ◌
    fits_decimal fits_integer
paying_bob = refl

within_limit : is_over_limit toy_edge transfer_request paid_bob ≡ false
unfolding is_over_limit skips_throttle
within_limit = refl

serve-again_example :
    (id : Text) × (serve_toy transfer_request paid_bob
      ≡ (answered_with 200 id (transferred moved_20), paid_bob))
serve-again_example =
    serve-again ⦃runtime = toy_runtime⦄ toy_crypto jwt no_sleep toy_edge transfer_request shop
      paid_bob 200 (codes "p") moved_20 refl paying_bob within_limit

Served-backed_example : total_balance after_two.db.wallets ≡ external_sum after_two.db.entries
Served-backed_example =
    Served-backed ⦃runtime = toy_runtime⦄ toy_crypto jwt no_sleep toy_edge (λ ms w backed. backed)
      after_two (served (served (opened empty_shop refl refl) register_request) cleo_deposit)
