-- ===== src/Bank/Shop.antt =====
-- `FlashSaleService.purchase`, `FlashSaleService.createEvent` and `AuthService` as steps of the bank.
use backend_assessment_chall.Prelude.{
  ap, arith, inl, inr, refl, some, subst, sym, ◌+◌, ◌-◌, ◌∙◌, ◌≡◌, ◌⊎◌,
}
use backend_assessment_chall.Auth.{register}
use backend_assessment_chall.Auth.Registration.{register_writes}
use backend_assessment_chall.Auth.Types.{Crypto, JwtConfig, RegisterDto}
use backend_assessment_chall.Bank.{Bank, Debits, Same, bank_of, wallet_of}
use backend_assessment_chall.Bank.Wallets.{Posted-adjusts}
use backend_assessment_chall.FlashSale.{
  charge_wallet, create_event, purchase, purchase_reserved, wallet_reference_id,
}
use backend_assessment_chall.FlashSale.Creation.{Created, create_event-creates}
use backend_assessment_chall.FlashSale.Money.{SameMoney, purchase_writes, settle_charge-SameMoney}
use backend_assessment_chall.FlashSale.Queries.{set_remaining}
use backend_assessment_chall.FlashSale.Stock.{IsQuiet, poll-quiet}
use backend_assessment_chall.FlashSale.Types.{
  CreateFlashSaleEventDto, Environment, PurchaseFlashSaleDto,
}
use backend_assessment_chall.Prelude.Int.{ℤ}
use backend_assessment_chall.Prelude.Table.{find_by}
use backend_assessment_chall.Prelude.Text.{Text}
use backend_assessment_chall.Schema.{
  Database, FlashSaleEvent, Product, Wallet, event_by_id, product_by_id, wallet_by_id,
}
use backend_assessment_chall.Wallet.{purchase_deduct}
use backend_assessment_chall.Wallet.Balance.{wallet_balance, wallet_balance-found}
use backend_assessment_chall.Wallet.Purchase.{Deducted, purchase_deduct-posts}
use backend_assessment_chall.Wallet.Types.{EntryResult}
use backend_assessment_chall.World.{Result, World, err, ok, random_uuid}
use backend_assessment_chall.World.Ensures.{Atomic, Outcome}

deduct_outcome-Debits :
    (user_id : Text) (amount : ℤ) (reference : Text) (w : World) (x : Result EntryResult × World)
    → Atomic w.db (λ r w'. (wallet : Wallet) × Deducted user_id amount reference w wallet r w') x
    → Same (bank_of w.db) (bank_of x.1.db)
      ⊎ Debits (wallet_of user_id w.db) amount (bank_of w.db) (bank_of x.1.db)
deduct_outcome-Debits user_id amount reference w (ok r, w') (wallet, (own, found, inl p)) =
    inl (λ x. ap (λ db. bank_of db x) p.0)
deduct_outcome-Debits user_id amount reference w (ok r, w') (wallet, (own, found, inr p)) = inr (
  wallet.id,
  ground (arith, own, p.0.own),
  rw (wallet_balance-found w.db wallet wallet.id p.0.found) p.1,
  Posted-adjusts p.0,
)
deduct_outcome-Debits user_id amount reference w (err e, w') same =
    inl (λ x. ap (λ db. bank_of db x) same)

pub purchase_deduct-Debits :
    (user_id : Text) (amount : ℤ) (reference : Text) (w : World)
    → Same (bank_of w.db) (bank_of (purchase_deduct user_id amount reference w).1.db)
      ⊎ Debits
          (wallet_of user_id w.db)
          amount
          (bank_of w.db)
          (bank_of (purchase_deduct user_id amount reference w).1.db)
purchase_deduct-Debits user_id amount reference w =
    deduct_outcome-Debits user_id amount reference w (purchase_deduct user_id amount reference w)
      (purchase_deduct-posts user_id amount reference w)

-- The user's wallet was debited the price, or not, where wallets and ledger are the same.
abbrev Charges : Text → ℤ → World → World → Type 0
Charges user_id price w v =
    Same (bank_of w.db) (bank_of v.db)
    ⊎ Debits (wallet_of user_id w.db) price (bank_of w.db) (bank_of v.db)

SameMoney-Same : {v w : World} → SameMoney v w → Same (bank_of v.db) (bank_of w.db)
unfolding wallet_balance
SameMoney-Same same x = rw same.wallets refl

Charges-SameMoney :
    (user_id : Text) (price : ℤ) (u v w : World)
    → Charges user_id price u v
    → SameMoney v w
    → Charges user_id price u w
Charges-SameMoney user_id price u v w (inl p) same = inl (λ x. SameMoney-Same same x ∙ p x)
Charges-SameMoney user_id price u v w (inr (id, own, enough, p)) same =
    inr (id, own, enough, (λ x. SameMoney-Same same x ∙ p x))

-- The price of the event's product is taken from the user's wallet.
abbrev pub Buys : Text → PurchaseFlashSaleDto → Database → Bank → Type 0
Buys user_id dto db after_it =
    (event : FlashSaleEvent) × (product : Product) × (event_by_id dto.event_id db.events
      ≡ some event)
    × (product_by_id event.product_id db.products ≡ some product)
    × Debits (wallet_of user_id db) product.price (bank_of db) after_it

module _ (env : Environment) (user_id : Text) (dto : PurchaseFlashSaleDto) where
  purchase_reserved-Charges :
      (price : ℤ) (w : World)
      → Charges user_id price w (purchase_reserved env user_id dto price w).1
  unfolding purchase_reserved charge_wallet random_uuid
  purchase_reserved-Charges price w =
      let reference : Text = wallet_reference_id dto.event_id dto.idempotency_key in
      let v : World = record w { drawn = w.drawn + 1 } in
      Charges-SameMoney user_id price w (purchase_deduct user_id price reference v).1 _
        (purchase_deduct-Debits user_id price reference v)
        (settle_charge-SameMoney env (w.uuids w.drawn) user_id dto _ _)

  -- A purchase does nothing to the bank, or it debits the user's wallet by the product's price. It is
  -- supposed that no other request acts meanwhile on the data base.
  pub purchase-Buys :
      IsQuiet env
      → (w : World)
      → Same (bank_of w.db) (bank_of (purchase env user_id dto w).1.db)
        ⊎ Buys user_id dto w.db (bank_of (purchase env user_id dto w).1.db)
  unfolding wallet_balance
  purchase-Buys quiet w = elim (purchase_writes env user_id dto w) [
    | inl same ↦ inl (λ x. ap (λ v. bank_of v.db x) same)
    | inr (inl polled) ↦ inl (λ x.
        ap (λ v. bank_of v.db x) polled
        ∙ ap (λ db. bank_of db x) (poll-quiet env quiet 5 40 dto.event_id dto.idempotency_key w))
    | inr (inr (event, product, found, sold, charged)) ↦
        let reserved : World = set_remaining event (event.remaining - 1) w in
        let outcome : Charges user_id product.price w (purchase env user_id dto w).1 =
          subst (Charges user_id product.price w) (sym charged)
            (purchase_reserved-Charges product.price reserved) in
        elim outcome [ inl same ↦ inl same | inr debit ↦ inr (event, product, found, sold, debit) ]
  ]

module _ (crypto : Crypto) (config : JwtConfig) where
  -- A registration opens a wallet with nothing in it.
  pub register-Same :
      (dto : RegisterDto) (w : World)
      → Same (bank_of w.db) (bank_of (register crypto config dto w).1.db)
  unfolding wallet_balance wallet_by_id find_by
  register-Same dto w x = elim (register_writes crypto config dto w) [
    | inl same ↦ ap (λ db. bank_of db x) same
    | inr (new, written) ↦ ground (arith, new.wallet, ap (λ db. bank_of db x) written)
  ]

Created-Same :
    (dto : CreateFlashSaleEventDto) (w : World) (x : Result FlashSaleEvent × World)
    → Outcome (λ e w'. w'.db ≡ w.db) (Created dto w) x
    → Same (bank_of w.db) (bank_of x.1.db)
unfolding wallet_balance
Created-Same dto w (ok event, v) (same, db, clock, p) x = rw db refl
Created-Same dto w (err e, v) same x = rw same refl

pub create_event-Same :
    (dto : CreateFlashSaleEventDto) (w : World)
    → Same (bank_of w.db) (bank_of (create_event dto w).1.db)
create_event-Same dto w = Created-Same dto w (create_event dto w) (create_event-creates dto w)
