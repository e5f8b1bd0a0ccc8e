-- ===== src/Config.antt =====
-- src/config: the rules on the environment variables (env.validation.ts) and the configuration that
-- is made of them (app-config.ts). `Number`, `parseInt` and `parseFloat` are parameters; a rate is
-- a whole number of millionths.
pub mod Limits
use backend_assessment_chall.Prelude.{
  Bool, Option, [], false, if◌then◌else◌, ite, leb, none, some, true, ℕ, ◌&&◌, ◌||◌, ◌∷◌,
}
use backend_assessment_chall.Prelude.Int.{negsuc, pos, ℤ}
use backend_assessment_chall.Prelude.Text.{Text, codes, text_discrete}
use backend_assessment_chall.World.{Exception, Result, err, ok, plain_error}

-- The variables; none, if one is not set.
pub record EnvironmentVariables : Type 0 where
  pub node_env : Option Text
  pub database_url : Option Text
  pub redis_host : Option Text
  pub redis_port : Option Text
  pub jwt_access_secret : Option Text
  pub jwt_access_ttl : Option Text
  pub jwt_refresh_secret : Option Text
  pub jwt_refresh_ttl : Option Text
  pub throttle_ttl : Option Text
  pub throttle_limit : Option Text
  pub port : Option Text
  pub simulate_notification_failure_rate : Option Text

abbrev pub invalid_environment : Exception
invalid_environment = plain_error (codes "Environment validation failed")

abbrev pub same_text : Text → Text → Bool
same_text a b = ite (text_discrete a b) true false

-- `@IsOptional() @IsString() @IsIn([...])`
unfoldable pub is_environment_name : Option Text → Bool
is_environment_name none = true
is_environment_name (some name) =
    same_text name (codes "development")
    || same_text name (codes "production")
    || same_text name (codes "test")

-- `@IsString() @IsNotEmpty()`
unfoldable pub is_filled_in : Option Text → Bool
is_filled_in none = false
is_filled_in (some []) = false
is_filled_in (some (c ∷ cs)) = true

-- What `Number` and the two parsers make of a text; none is NaN or, for the first and the third,
-- no whole number.
pub record Numbers : Type 0 where
  pub number : Text → Option ℤ
  pub number_in_millionths : Text → Option ℤ
  pub parse_int : Text → Option ℤ
  pub parse_float : Text → Option ℤ

pub record AppConfig : Type 0 where
  pub node_env : Text
  pub port : Option ℤ
  pub database_url : Option Text
  pub redis_host : Option Text
  pub redis_port : Option ℤ
  pub access_secret : Option Text
  pub access_ttl : Option Text
  pub refresh_secret : Option Text
  pub refresh_ttl : Option Text
  pub throttle_ttl : Option ℤ
  pub throttle_limit : Option ℤ
  pub simulate_failure_rate : Option ℤ

module _ (numbers : Numbers) where
  open numbers use {number, number_in_millionths, parse_int, parse_float}

  -- `@Type(() => Number) @IsInt() @Min(low) @Max(high)`; none is no upper limit.
  unfoldable pub is_int_between : ℕ → Option ℕ → Option Text → Bool
  is_int_between low high none = false
  is_int_between low high (some t) = within (number t) high
    where
      within : Option ℤ → Option ℕ → Bool
      within none high = false
      within (some (negsuc n)) high = false
      within (some (pos n)) none = leb low n
      within (some (pos n)) (some top) = leb low n && leb n top

  -- `@Type(() => Number) @IsOptional() @IsNumber() @Min(0) @Max(1)`
  unfoldable pub is_optional_rate : Option Text → Bool
  is_optional_rate none = true
  is_optional_rate (some t) = rate (number_in_millionths t)
    where
      rate : Option ℤ → Bool
      rate none = false
      rate (some (negsuc n)) = false
      rate (some (pos n)) = leb n 1000000

  unfoldable pub is_valid_environment : EnvironmentVariables → Bool
  is_valid_environment env =
      is_environment_name env.node_env
      && is_filled_in env.database_url
      && is_filled_in env.redis_host
      && is_int_between 1 (some 65535) env.redis_port
      && is_filled_in env.jwt_access_secret
      && is_filled_in env.jwt_access_ttl
      && is_filled_in env.jwt_refresh_secret
      && is_filled_in env.jwt_refresh_ttl
      && is_int_between 1 none env.throttle_ttl
      && is_int_between 1 none env.throttle_limit
      && is_int_between 1 (some 65535) env.port
      && is_optional_rate env.simulate_notification_failure_rate

  -- `validate`
  unfoldable pub validate_environment : EnvironmentVariables → Result EnvironmentVariables
  validate_environment env = if is_valid_environment env then ok env else err invalid_environment

  -- `parseInt(variable ?? default, 10)`
  unfoldable pub parsed : Option Text → Text → Option ℤ
  parsed none default = parse_int default
  parsed (some t) default = parse_int t

  -- The function that app-config.ts exports.
  unfoldable pub app_config : EnvironmentVariables → AppConfig
  app_config env = record {
    node_env = elim env.node_env [ none ↦ codes "development" | some name ↦ name ];
    port = parsed env.port (codes "3000");
    database_url = env.database_url;
    redis_host = env.redis_host;
    redis_port = parsed env.redis_port (codes "6379");
    access_secret = env.jwt_access_secret;
    access_ttl = env.jwt_access_ttl;
    refresh_secret = env.jwt_refresh_secret;
    refresh_ttl = env.jwt_refresh_ttl;
    throttle_ttl = parsed env.throttle_ttl (codes "60");
    throttle_limit = parsed env.throttle_limit (codes "10");
    simulate_failure_rate =
        parse_float (elim env.simulate_notification_failure_rate [ none ↦ codes "0" | some t ↦ t ]);
  }
