-- ===== src/Tests/EdgeCalls.antt =====
-- The theorems on guards, error replies, notifications, dates and reports, at small inputs.
use backend_assessment_chall.Prelude.{
  List, Option, [], arith, length, map, none, refl, some, true, ℕ, ℕ_discrete, ◌*◌, ◌++◌, ◌<◌, ◌∷◌,
  ◌≡◌, ◌≢◌,
}
use backend_assessment_chall.Auth.Types.{Claims}
use backend_assessment_chall.FlashSale.{create_event, get_event, purchase}
use backend_assessment_chall.FlashSale.Creation.{get_event-create_event, new_event}
use backend_assessment_chall.FlashSale.Queries.{event_not_active}
use backend_assessment_chall.FlashSale.Types.{CreateFlashSaleEventDto}
use backend_assessment_chall.Guards.{bearer, board_use, next_handler}
use backend_assessment_chall.Guards.Board.{as_board, board_use-admin, board_use-guards, guarded}
use backend_assessment_chall.Http.{
  Message, Thrown, absent, catch_exception, correlate, native_error, single,
}
use backend_assessment_chall.Http.Replies.{catch_exception-correlated}
use backend_assessment_chall.Notifications.{NotificationJob, order_confirmation_job}
use backend_assessment_chall.Prelude.Table.{find_by}
use backend_assessment_chall.Prelude.Text.{Text, codes, text_discrete}
use backend_assessment_chall.Redis.{has_prefix}
use backend_assessment_chall.Schema.{
  FlashSaleEvent, Product, Role, Wallet, event_by_id, order_by_key, product_by_id,
}
use backend_assessment_chall.Tests.Codec.{get_text, put_text, toy_runtime}
use backend_assessment_chall.Tests.Data.{ann, no_sleep, shop, shop_db}
use backend_assessment_chall.Tests.Tokens.{
  code_role, jwt, read_claims, role_code, toy_crypto, toy_sign_access, toy_verify_access,
}
use backend_assessment_chall.Validators.{dates_are_valid, is_after_date, is_not_past_date, string}
use backend_assessment_chall.Validators.Dates.{dates_are_valid-create_event}
use backend_assessment_chall.Wallet.Reads.{check_wallet}
use backend_assessment_chall.Wallet.Types.{InvariantReport}
use backend_assessment_chall.World.{World, err, fits_integer, ok, random_uuid}

abbrev admin_token : Text
admin_token = 2 ∷ codes "as" ++ (1 ∷ ann)

abbrev ann_claims : Claims
ann_claims = record { sub = some ann; role = some Role.admin }

admin_verified : toy_crypto.verify_access jwt.access_secret 0 admin_token ≡ some ann_claims
unfolding toy_verify_access toy_sign_access put_text get_text read_claims role_code code_role
    text_discrete ℕ_discrete
admin_verified = refl

-- The token is one that was signed.
token_signed :
    toy_crypto.sign_access jwt.access_secret jwt.access_ttl 0
      (record { sub = ann; role = Role.admin })
    ≡ admin_token
unfolding toy_sign_access put_text role_code
token_signed = refl

board_use-guards_example :
    board_use toy_crypto jwt 0 (some (bearer ++ admin_token)) ≡ as_board (guarded ann_claims)
board_use-guards_example =
    board_use-guards toy_crypto jwt 0 2 (codes "as" ++ (1 ∷ ann)) ann_claims 97 (codes "nn")
      Role.admin admin_verified refl refl

board_open : board_use toy_crypto jwt 0 (some (bearer ++ admin_token)) ≡ next_handler
unfolding board_use has_prefix toy_verify_access toy_sign_access put_text get_text read_claims
    role_code code_role text_discrete ℕ_discrete
board_open = refl

board_use-admin_example :
    (token : Text) × (claims : Claims) × (some (bearer ++ admin_token) ≡ some (bearer ++ token))
    × (toy_crypto.verify_access jwt.access_secret 0 token ≡ some claims)
    × (claims.role ≡ some Role.admin)
board_use-admin_example = board_use-admin toy_crypto jwt 0 (some (bearer ++ admin_token)) board_open

abbrev log_text : ℕ → Message → Text
log_text status (Message.text m) = status ∷ m
log_text status (Message.texts ms) = status ∷ []

abbrev broken : Thrown
broken = native_error (codes "Error") (codes "boom") (codes "at x")

u_is_text : codes "u" ≢ []
u_is_text e = ground arith

catch_exception-correlated_example :
    let exchange = correlate none absent (codes "u") in
    let (body, line) = catch_exception log_text (some exchange.correlation_id) 5 none broken in
    (body.correlation_id ≡ exchange.response_header)
    × (line.correlation_id ≡ exchange.response_header)
    × (exchange.request_header ≡ single exchange.response_header)
    × (exchange.response_header ≢ [])
catch_exception-correlated_example =
    catch_exception-correlated log_text none absent (codes "u") 5 none broken u_is_text

abbrev some_job : NotificationJob
some_job = record {
  name = order_confirmation_job;
  order_id = codes "o1";
  user_id = ann;
  attempts_made = 0;
  attempts = some 5;
}

-- A date is read as the number of its letters.
abbrev letters : Text → Option ℕ
letters t = some (200 * length t)

abbrev sale_dto : CreateFlashSaleEventDto
sale_dto = record { product_id = codes "p1"; total_stock = 3; starts_at = 200; ends_at = 400 }

abbrev announced : World
announced = (create_event sale_dto shop).1

abbrev new_sale : FlashSaleEvent
new_sale = new_event sale_dto shop

announcing : create_event sale_dto shop ≡ (ok new_sale, announced)
unfolding create_event random_uuid product_by_id event_by_id find_by fits_integer text_discrete
    ℕ_discrete
announcing = refl

dates_valid : dates_are_valid letters shop.clock (string (codes "a")) (string (codes "bb")) ≡ true
unfolding dates_are_valid is_not_past_date is_after_date
dates_valid = refl

nothing_ordered : order_by_key (new_sale.id, codes "k1") announced.db.orders ≡ none
unfolding create_event random_uuid product_by_id event_by_id find_by fits_integer text_discrete
    ℕ_discrete order_by_key
nothing_ordered = refl

dates_are_valid-create_event_example :
    (new_sale.remaining ≡ sale_dto.total_stock)
    × (new_sale.starts_at < new_sale.ends_at)
    × (purchase no_sleep ann
          (record { event_id = new_sale.id; idempotency_key = codes "k1" })
          announced
        ≡ (err event_not_active, announced))
dates_are_valid-create_event_example =
    dates_are_valid-create_event letters (codes "a") (codes "bb") sale_dto shop announced new_sale
      no_sleep ann (codes "k1") dates_valid refl refl announcing nothing_ordered

get_event-create_event_example :
    (product : Product) × (get_event new_sale.id announced
      ≡ (ok (record { event = new_sale; product = product }), announced))
    × (product.id ≡ codes "p1")
    × (new_sale.remaining ≡ 3)
    × (new_sale.starts_at ≡ 200)
    × (new_sale.ends_at ≡ 400)
get_event-create_event_example = get_event-create_event sale_dto shop announced new_sale announcing

abbrev shop_reports : List InvariantReport
shop_reports = map (check_wallet ⦃runtime = toy_runtime⦄ shop_db.entries) shop_db.wallets
