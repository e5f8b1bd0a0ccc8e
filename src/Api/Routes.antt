-- ===== src/Api/Routes.antt =====
-- The decorators of the methods of src/auth/auth.controller.ts,
-- src/modules/wallet/wallet.controller.ts, src/modules/flash-sale/flash-sale.controller.ts,
-- src/health/health.controller.ts and src/app.controller.ts.
-- `@UseGuards(JwtAuthGuard)`; `@Roles(…)`, where `RolesGuard` is used; `@HttpCode(…)`, or 201 for a
-- POST and 200 for a GET; `@Throttle(…)`; `@SkipThrottle()`.
use backend_assessment_chall.Prelude.{
  Bool, List, Option, [], false, none, some, true, ℕ, ◌*◌, ◌+◌, ◌∷◌,
}
use backend_assessment_chall.Api.Types.{
  Route, ThrottleOptions, auth_admin_check, auth_login, auth_logout, auth_me, auth_refresh,
  auth_register, get_hello, health_check, sale_create_event, sale_get_event, sale_purchase,
  wallet_deposit, wallet_get_me, wallet_transfer,
}
use backend_assessment_chall.Http.{or_else}
use backend_assessment_chall.Prelude.Int.{negsuc, pos, ℤ}
use backend_assessment_chall.Prelude.Text.{Text, codes}
use backend_assessment_chall.Schema.{Role}

pub record RouteOptions : Type 0 where
  pub guarded : Bool
  pub roles : Option (List Role)
  pub status : ℕ
  pub throttle : Option ThrottleOptions
  pub skip : Bool

abbrev pub get_options : RouteOptions
get_options = record { guarded = false; roles = none; status = 200; throttle = none; skip = false }

abbrev pub per_minute : ℕ → Option ThrottleOptions
per_minute n = some (record { limit = some (pos n); ttl = some (pos 60000) })

abbrev pub hello_options : RouteOptions
hello_options = get_options

abbrev pub health_options : RouteOptions
health_options = record get_options { skip = true }

abbrev pub register_options : RouteOptions
register_options = record get_options { status = 201; throttle = per_minute 5 }

abbrev pub login_options : RouteOptions
login_options = record get_options { throttle = per_minute 5 }

abbrev pub refresh_options : RouteOptions
refresh_options = record get_options { throttle = per_minute 10 }

abbrev pub logout_options : RouteOptions
logout_options = record get_options { status = 204 }

abbrev pub me_options : RouteOptions
me_options = record get_options { guarded = true }

abbrev pub admin_options : RouteOptions
admin_options = record get_options { guarded = true; roles = some (Role.admin ∷ []) }

-- The guard stands at the class.
abbrev pub wallet_options : RouteOptions
wallet_options = record get_options { guarded = true }

abbrev pub create_event_options : RouteOptions
create_event_options = record get_options {
  guarded = true;
  roles = some (Role.admin ∷ []);
  status = 201;
}

abbrev pub get_event_options : RouteOptions
get_event_options = record get_options { guarded = true; roles = some (Role.admin ∷ []) }

abbrev pub purchase_options : RouteOptions
purchase_options = record get_options {
  guarded = true;
  throttle = some (record { limit = some (pos 3); ttl = some (pos 1000) });
}

abbrev pub options_of : Route → RouteOptions
options_of get_hello = hello_options
options_of health_check = health_options
options_of auth_register = register_options
options_of auth_login = login_options
options_of auth_refresh = refresh_options
options_of auth_logout = logout_options
options_of auth_me = me_options
options_of auth_admin_check = admin_options
options_of wallet_deposit = wallet_options
options_of wallet_transfer = wallet_options
options_of wallet_get_me = wallet_options
options_of sale_create_event = create_event_options
options_of sale_get_event = get_event_options
options_of sale_purchase = purchase_options

unfoldable pub is_protected : Route → Bool
is_protected route = (options_of route).guarded

unfoldable pub required_roles : Route → Option (List Role)
required_roles route = (options_of route).roles

unfoldable pub success_status : Route → ℕ
success_status route = (options_of route).status

unfoldable pub skips_throttle : Route → Bool
skips_throttle route = (options_of route).skip

-- The limit of the route, or that of `ThrottlerModule`.
unfoldable pub throttle_of : ThrottleOptions → Route → ThrottleOptions
throttle_of otherwise route = or_else (options_of route).throttle otherwise

-- `x * 1000`
abbrev pub thousandfold : Option ℤ → Option ℤ
thousandfold none = none
thousandfold (some (pos n)) = some (pos (n * 1000))
thousandfold (some (negsuc n)) = some (negsuc (n * 1000 + 999))

-- The options of `ThrottlerModule` in src/app.module.ts, given `parseInt` and the two variables.
unfoldable pub default_throttle : (Text → Option ℤ) → Option Text → Option Text → ThrottleOptions
default_throttle parse_int ttl limit = record {
  limit = parse_int (or_else limit (codes "10"));
  ttl = thousandfold (parse_int (or_else ttl (codes "60")));
}
