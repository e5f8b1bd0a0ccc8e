-- ===== src/Api/Types.antt =====
-- What the controllers take and answer (src/auth/auth.controller.ts,
-- src/modules/wallet/wallet.controller.ts, src/modules/flash-sale/flash-sale.controller.ts,
-- src/health/health.controller.ts, src/app.controller.ts).
use backend_assessment_chall.Prelude.{Bool, List, Option, ℕ, ◌≡◌}
use backend_assessment_chall.Auth.Types.{AuthTokensDto, Claims, CurrentUserPayload}
use backend_assessment_chall.FlashSale.Types.{EventView, OrderResult}
use backend_assessment_chall.Health.{HealthReport}
use backend_assessment_chall.Http.{HeaderValue, Message, Thrown, status_of, status_of_exception}
use backend_assessment_chall.Prelude.Int.{ℤ}
use backend_assessment_chall.Prelude.Text.{Text}
use backend_assessment_chall.Schema.{FlashSaleEvent}
use backend_assessment_chall.Validators.{FieldValue}
use backend_assessment_chall.Wallet.Types.{EntryResult, TransferResult, WalletView}
use backend_assessment_chall.World.{Exception, World}

-- The routes, by the methods of the controllers.
pub data Route : Type 0 where
  get_hello health_check : Route
  auth_register auth_login auth_refresh auth_logout auth_me auth_admin_check : Route
  wallet_deposit wallet_transfer wallet_get_me : Route
  sale_create_event sale_get_event sale_purchase : Route

-- A field of the body.
pub record Field : Type 0 where
  pub name : Text
  pub value : FieldValue

-- A request: its route, the header `authorization`, the header with the correlation id, the body,
-- the parameter `:id`, and the query's `limit`.
pub record Request : Type 0 where
  pub route : Route
  pub authorization : Option Text
  pub correlation : HeaderValue
  pub body : List Field
  pub path_id : Text
  pub limit : Option Text

pub data Answer : Type 0 where
  hello : Text → Answer
  health : HealthReport → Answer
  tokens : AuthTokensDto → Answer
  current_user : CurrentUserPayload → Answer
  admin_ok nothing : Answer
  deposited : EntryResult → Answer
  transferred : TransferResult → Answer
  wallet_view : WalletView → Answer
  event_created : FlashSaleEvent → Answer
  event_shown : EventView → Answer
  order_result : OrderResult → Answer

-- How many requests in how many milliseconds; NaN is none.
pub record ThrottleOptions : Type 0 where
  pub limit : Option ℤ
  pub ttl : Option ℤ

-- What class-validator, `Date` and `parseInt` make of a text, and what NestJS, passport and the
-- throttler make of a request: the claims of a valid Bearer token, whether the request is over a
-- limit, and what an exception is to the filter; and the two variables of the process's environment
-- that src/app.module.ts reads. Relied on: an exception of @nestjs/common is an
-- HttpException with the status that its class stands for, and an error of Prisma or of JavaScript
-- is none.
pub record Edge : Type 0 where
  pub is_uuid : Text → Bool
  pub is_email : Text → Bool
  pub is_date_string : Text → Bool
  pub has_min_length : ℕ → Text → Bool
  pub parse_date : Text → Option ℕ
  pub parse_int : Text → Option ℤ
  pub authenticate : ℕ → Option Text → Option Claims
  pub throttle_ttl : Option Text
  pub throttle_limit : Option Text
  pub is_throttled : ThrottleOptions → Request → World → Bool
  pub probe_rows : World → Option Text
  pub probe_ping : World → Option Text
  pub probe_counts : World → Option Text
  pub pino_id : World → Text
  pub fresh_id : World → Text
  pub log_message : ℕ → Message → Text
  pub thrown : Exception → Thrown
  pub thrown-status : (e : Exception) → status_of (thrown e) ≡ status_of_exception e
