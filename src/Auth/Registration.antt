-- ===== src/Auth/Registration.antt =====
-- `register` in src/auth/auth.service.ts.
use backend_assessment_chall.Prelude.{
  Bool, Bool-cases, Option-cases, ap, arith, inl, inr, is_some, none, some, suc, true, ℕ, ◌+◌, ◌||◌,
  ◌∙◌, ◌∷◌, ◌≡◌, ◌⊎◌,
}
use backend_assessment_chall.Auth.{
  create_user, email_taken, invalid_ttl, issue_token_pair, register, register_user, user_by_email,
  user_by_id,
}
use backend_assessment_chall.Auth.Rotation.{issue_token_pair-Issued, pair_for}
use backend_assessment_chall.Auth.Sessions.{session}
use backend_assessment_chall.Auth.Ttl.{ttl_to_seconds}
use backend_assessment_chall.Auth.Types.{AuthTokensDto, Crypto, JwtConfig, RegisterDto}
use backend_assessment_chall.Prelude.Int.{pos}
use backend_assessment_chall.Prelude.Table.{find_by}
use backend_assessment_chall.Prelude.Text.{Text, codes}
use backend_assessment_chall.Redis.{redis_set}
use backend_assessment_chall.Schema.{Database, Role, User, Wallet, wallet_by_id, wallet_by_user}
use backend_assessment_chall.Wallet.Balance.{IsSound, wallet_balance}
use backend_assessment_chall.Wallet.Provision.{provision_wallet}
use backend_assessment_chall.World.{Result, World, err, known_request, ok, p2002, random_uuid}
use backend_assessment_chall.World.Ensures.{Outcome, Outcome-err, Outcome-implies}

refused-db :
    (w : World) (x : Result AuthTokensDto × World)
    → Outcome (λ e w'. (w'.db ≡ w.db) × (w'.redis ≡ w.redis)) (λ r w'. ⊥) x
    → x.1.db ≡ w.db
refused-db w (ok r, w') never = elim never [ ]
refused-db w (err e, w') same = same.0

module _ (crypto : Crypto) (config : JwtConfig) where
  open crypto use {hash, compare_hash, compare_hash-hash}

  -- The row that `register` adds to the users.
  abbrev pub new_user : RegisterDto → World → User
  new_user dto w = record {
    id = w.uuids w.drawn;
    email = dto.email;
    password = hash w dto.password;
    role = Role.customer;
    created_at = w.clock;
  }

  -- The row that it adds to the wallets.
  abbrev pub new_wallet : World → Wallet
  new_wallet w = record {
    id = w.uuids (w.drawn + 1);
    user_id = w.uuids w.drawn;
    balance = pos 0;
    version = 0;
    created_at = w.clock;
    updated_at = w.clock;
  }

  -- The data base with the new user and the user's wallet.
  abbrev pub with_user : RegisterDto → World → Database
  with_user dto w = record (w.db) {
    users = new_user dto w ∷ w.db.users;
    wallets = new_wallet w ∷ w.db.wallets;
  }

  -- The email, the wallet's owner and both ids were new.
  pub record IsNew (dto : RegisterDto) (w : World) : Type 0 where
    pub email : user_by_email dto.email w.db.users ≡ none
    pub user : user_by_id (w.uuids w.drawn) w.db.users ≡ none
    pub wallet : wallet_by_id (w.uuids (w.drawn + 1)) w.db.wallets ≡ none
    pub owner : wallet_by_user (w.uuids w.drawn) w.db.wallets ≡ none

  -- The state after `register_user`.
  abbrev pub registered : RegisterDto → World → World
  registered dto w = record w { db = with_user dto w; drawn = w.drawn + 1 + 1 }

  register_user-new :
      (dto : RegisterDto) (w : World)
      → IsNew dto w
      → register_user dto.email (hash w dto.password) w ≡ (ok (new_user dto w), registered dto w)
  unfolding register_user create_user provision_wallet random_uuid
  register_user-new dto w new = ground (arith, new.email, new.user, new.wallet, new.owner)

  -- A row that is in the way of `register_user`.
  abbrev is_taken : RegisterDto → World → Bool
  is_taken dto w =
      is_some (user_by_email dto.email w.db.users)
      || is_some (user_by_id (w.uuids w.drawn) w.db.users)
      || is_some (wallet_by_id (w.uuids (w.drawn + 1)) w.db.wallets)
      || is_some (wallet_by_user (w.uuids w.drawn) w.db.wallets)

  register_user-taken :
      (dto : RegisterDto) (w : World)
      → is_taken dto w ≡ true
      → ((register_user dto.email (hash w dto.password) w).0 ≡ err (known_request p2002))
        × ((register_user dto.email (hash w dto.password) w).1.db ≡ w.db)
        × ((register_user dto.email (hash w dto.password) w).1.redis ≡ w.redis)
  unfolding register_user create_user provision_wallet random_uuid
  register_user-taken dto w taken = ground arith

  taken_or_IsNew : (dto : RegisterDto) (w : World) → (is_taken dto w ≡ true) ⊎ IsNew dto w
  taken_or_IsNew dto w = elim (Bool-cases (is_taken dto w)) [
    | inl taken ↦ inl taken
    | inr new ↦ inr (record {
      email = ground arith;
      user = ground arith;
      wallet = ground arith;
      owner = ground arith;
    })
  ]

  register_new :
      (dto : RegisterDto) (w : World)
      → IsNew dto w
      → register crypto config dto w
        ≡ issue_token_pair crypto config (w.uuids w.drawn) Role.customer (registered dto w)
  unfolding register
  register_new dto w new = ground (arith, register_user-new dto w new, new.email)

  register_taken :
      (dto : RegisterDto) (w : World)
      → is_taken dto w ≡ true
      → Outcome
          (λ e w'. (w'.db ≡ w.db) × (w'.redis ≡ w.redis))
          (λ r w'. ⊥)
          (register crypto config dto w)
  unfolding register
  register_taken dto w taken = elim (Option-cases (user_by_email dto.email w.db.users)) [
    | inl free ↦
        Outcome-err _ _ (register crypto config dto w) (known_request p2002)
          (ground (arith, register_user-taken dto w taken))
          (ground (arith, register_user-taken dto w taken))
    | inr (user, found) ↦
        Outcome-err _ _ (register crypto config dto w) email_taken (ground arith) (ground arith)
  ]

  -- The user and the wallet were added, the session lives, and the reply is its pair of tokens.
  abbrev pub Registered : RegisterDto → World → AuthTokensDto → World → Type 0
  Registered dto w r w' =
      IsNew dto w
      × (r ≡ pair_for crypto config (w.uuids w.drawn) Role.customer (registered dto w))
      × (w'.db ≡ with_user dto w)
      × (session (w.uuids w.drawn) (w.uuids (w.drawn + 1 + 1)) w' ≡ some (codes "1"))

  pub register-registers :
      (dto : RegisterDto) (w : World) (seconds : ℕ)
      → ttl_to_seconds config.refresh_ttl ≡ some (suc seconds)
      → Outcome
          (λ e w'. (w'.db ≡ w.db) × (w'.redis ≡ w.redis))
          (Registered dto w)
          (register crypto config dto w)
  register-registers dto w seconds ttl = elim (taken_or_IsNew dto w) [
    | inl taken ↦
        Outcome-implies _ _ _ _ (register crypto config dto w) (register_taken dto w taken)
          (λ e w' same. same) (λ r w' never. elim never [ ])
    | inr new ↦ rw (register_new dto w new) (
        Outcome-implies (λ e w'. ⊥) _ _ _
          (issue_token_pair crypto config (w.uuids w.drawn) Role.customer (registered dto w))
          (issue_token_pair-Issued crypto config (w.uuids w.drawn) Role.customer seconds
            (registered dto w) ttl)
          (λ e w' never. elim never [ ])
          (λ r w' q. (new, q.reply, q.same_db, ground (arith, q.stored, q.same_clock))))
  ]

  issue_token_pair-db :
      (user_id : Text) (role : Role) (w : World)
      → (issue_token_pair crypto config user_id role w).1.db ≡ w.db
  unfolding issue_token_pair random_uuid redis_set
  issue_token_pair-db user_id role w = ground arith

  with_user-IsSound :
      (dto : RegisterDto) (w : World) → IsNew dto w → IsSound w.db → IsSound (with_user dto w)
  unfolding wallet_balance wallet_by_id find_by
  with_user-IsSound dto w new sound = record {
    balanced = λ id. ground (arith, sound.balanced id, new.wallet);
    nonneg = λ id. ground (arith, sound.nonneg id);
    distinct = (new.wallet, sound.distinct);
  }

  -- A registration leaves the data base as it was, or adds the user and the wallet.
  pub register_writes :
      (dto : RegisterDto) (w : World)
      → ((register crypto config dto w).1.db ≡ w.db)
        ⊎ (IsNew dto w × ((register crypto config dto w).1.db ≡ with_user dto w))
  register_writes dto w = elim (taken_or_IsNew dto w) [
    | inl taken ↦ inl (refused-db w (register crypto config dto w) (register_taken dto w taken))
    | inr new ↦ inr (
      new,
      ap (λ x. x.1.db) (register_new dto w new)
          ∙ issue_token_pair-db (w.uuids w.drawn) Role.customer (registered dto w),
    )
  ]

  -- A registration keeps the ledger invariant, however it ends.
  pub register-IsSound :
      (dto : RegisterDto) (w : World) → IsSound w.db → IsSound (register crypto config dto w).1.db
  register-IsSound dto w sound = elim (register_writes dto w) [
    | inl same ↦ rw same sound
    | inr (new, written) ↦ rw written (with_user-IsSound dto w new sound)
  ]

  -- With a lifetime of sessions that cannot be read, a registration whose email and ids are new
  -- makes the account and the wallet and then throws, with no session made.
  pub register-unreadable_ttl :
      (dto : RegisterDto) (w : World)
      → ttl_to_seconds config.refresh_ttl ≡ none
      → IsNew dto w
      → let (r, w') = register crypto config dto w in
        (r ≡ err invalid_ttl) × (w'.db ≡ with_user dto w) × (w'.redis ≡ w.redis)
  unfolding issue_token_pair random_uuid
  register-unreadable_ttl dto w unreadable new =
      rw (register_new dto w new) (ground arith, ground arith, ground arith)
