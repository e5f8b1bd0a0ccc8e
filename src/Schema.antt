-- ===== src/Schema.antt =====
-- The data model: prisma/schema.prisma with the unique indexes of prisma/migrations. A table is
-- the list of its rows, the newest first; an amount of money, DECIMAL(18,2), is an integer number
-- of hundredths; a time is a number of milliseconds. The id of a ledger entry is left out: it is
-- drawn by the data base and nothing reads it.
use backend_assessment_chall.Prelude.{List, Option, ℕ}
use backend_assessment_chall.Prelude.Int.{ℤ}
use backend_assessment_chall.Prelude.Table.{find_by, update_by}
use backend_assessment_chall.Prelude.Text.{Text, text_discrete}

pub data Role : Type 0 where
  customer admin : Role

pub data LedgerType : Type 0 where
  deposit transfer_in transfer_out purchase : LedgerType

pub data OrderStatus : Type 0 where
  confirmed failed : OrderStatus

pub record User : Type 0 where
  pub id : Text
  pub email : Text
  pub password : Text
  pub role : Role
  pub created_at : ℕ

pub record Wallet : Type 0 where
  pub id : Text
  pub user_id : Text
  pub balance : ℤ
  pub version : ℕ
  pub created_at : ℕ
  pub updated_at : ℕ

pub record LedgerEntry : Type 0 where
  pub wallet_id : Text
  pub kind : LedgerType
  pub amount : ℤ
  pub balance_after : ℤ
  pub reference_id : Text
  pub created_at : ℕ

pub record Product : Type 0 where
  pub id : Text
  pub name : Text
  pub price : ℤ

pub record FlashSaleEvent : Type 0 where
  pub id : Text
  pub product_id : Text
  pub total_stock : ℕ
  pub remaining : ℕ
  pub starts_at : ℕ
  pub ends_at : ℕ
  pub created_at : ℕ

pub record Order : Type 0 where
  pub id : Text
  pub user_id : Text
  pub flash_sale_event_id : Text
  pub status : OrderStatus
  pub idempotency_key : Text
  pub created_at : ℕ

pub record Database : Type 0 where
  pub users : List User
  pub wallets : List Wallet
  pub entries : List LedgerEntry
  pub products : List Product
  pub events : List FlashSaleEvent
  pub orders : List Order

-- `@@unique([walletId, referenceId, type])`
abbrev pub EntryKey : Type 0
EntryKey = Text × Text × LedgerType

abbrev pub entry_key : LedgerEntry → EntryKey
entry_key e = (e.wallet_id, e.reference_id, e.kind)

pub LedgerType-discrete : Discrete LedgerType
LedgerType-discrete = hlevel

-- `@@unique([flashSaleEventId, idempotencyKey])`
abbrev pub OrderKey : Type 0
OrderKey = Text × Text

abbrev pub order_key : Order → OrderKey
order_key o = (o.flash_sale_event_id, o.idempotency_key)

unfoldable pub entry_key_discrete : Discrete EntryKey
unfolding text_discrete
entry_key_discrete = hlevel text_discrete

unfoldable pub order_key_discrete : Discrete OrderKey
unfolding text_discrete
order_key_discrete = hlevel text_discrete

unfoldable pub wallet_by_id : Text → List Wallet → Option Wallet
unfolding find_by
wallet_by_id = find_by text_discrete (λ w. w.id)

unfoldable pub wallet_by_user : Text → List Wallet → Option Wallet
unfolding find_by
wallet_by_user = find_by text_discrete (λ w. w.user_id)

unfoldable pub replace_wallet : Text → Wallet → List Wallet → List Wallet
unfolding update_by
replace_wallet id wallet = update_by text_discrete (λ w. w.id) id (λ _. wallet)

unfoldable pub entry_by_key : EntryKey → List LedgerEntry → Option LedgerEntry
unfolding find_by
entry_by_key = find_by entry_key_discrete entry_key

unfoldable pub product_by_id : Text → List Product → Option Product
unfolding find_by
product_by_id = find_by text_discrete (λ p. p.id)

unfoldable pub event_by_id : Text → List FlashSaleEvent → Option FlashSaleEvent
unfolding find_by
event_by_id = find_by text_discrete (λ e. e.id)

unfoldable pub replace_event : Text → FlashSaleEvent → List FlashSaleEvent → List FlashSaleEvent
unfolding update_by
replace_event id event = update_by text_discrete (λ e. e.id) id (λ _. event)

unfoldable pub order_by_id : Text → List Order → Option Order
unfolding find_by
order_by_id = find_by text_discrete (λ o. o.id)

unfoldable pub order_by_key : OrderKey → List Order → Option Order
unfolding find_by
order_by_key = find_by order_key_discrete order_key
