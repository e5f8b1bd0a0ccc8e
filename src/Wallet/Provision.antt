-- ===== src/Wallet/Provision.antt =====
-- src/modules/wallet/wallet.service.ts: `provisionWallet`, which `AuthService.register` calls in
-- its transaction.
use backend_assessment_chall.Prelude.{is_some, ◌||◌, ◌∷◌}
use backend_assessment_chall.Prelude.Int.{pos}
use backend_assessment_chall.Prelude.Text.{Text}
use backend_assessment_chall.Schema.{Wallet, wallet_by_id, wallet_by_user}
use backend_assessment_chall.World.{
  Action, gets, known_request, modify_db, p2002, random_uuid, throw_if, ◌>>=◌, ◌>>◌,
}

-- The foreign key to the user is met: `register` has just created the row.
unfoldable pub provision_wallet : Text → Action (Unit {0})
provision_wallet user_id = do
  id ← random_uuid
  same_id ← gets (λ w. wallet_by_id id w.db.wallets)
  same_user ← gets (λ w. wallet_by_user user_id w.db.wallets)
  throw_if (is_some same_id || is_some same_user) (known_request p2002)
  now ← gets (λ w. w.clock)
  let wallet : Wallet = record {
    id = id;
    user_id = user_id;
    balance = pos 0;
    version = 0;
    created_at = now;
    updated_at = now;
  }
  modify_db (λ db. record db { wallets = wallet ∷ db.wallets })
