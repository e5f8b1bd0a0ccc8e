-- ===== src/Tests/ConfigCalls.antt =====
-- The configuration of a small environment.
use backend_assessment_chall.Prelude.{
  Option, [], if◌then◌else◌, none, refl, some, true, ℕ, ◌∷◌, ◌≡◌, ◌≤◌,
}
use backend_assessment_chall.Auth.Durations.{all_digits, number_of, number_of_reversed}
use backend_assessment_chall.Auth.Ttl.{is_digit}
use backend_assessment_chall.Config.{
  EnvironmentVariables, Numbers, app_config, is_environment_name, is_filled_in, is_int_between,
  is_optional_rate, is_valid_environment, validate_environment,
}
use backend_assessment_chall.Config.Limits.{app_config-limits}
use backend_assessment_chall.Prelude.Int.{pos, ℤ}
use backend_assessment_chall.Prelude.Text.{Text, codes}
use backend_assessment_chall.World.{ok}

-- Texts of digits as numbers, everything else as NaN.
read_number : Text → Option ℤ
read_number [] = none
read_number (c ∷ cs) = if all_digits (c ∷ cs) then some (pos (number_of (c ∷ cs))) else none

abbrev digits : Numbers
digits = record {
  number = read_number;
  number_in_millionths = read_number;
  parse_int = read_number;
  parse_float = read_number;
}

abbrev variables : EnvironmentVariables
variables = record {
  node_env = none;
  database_url = some (codes "postgres://db");
  redis_host = some (codes "redis");
  redis_port = some (codes "6379");
  jwt_access_secret = some (codes "as");
  jwt_access_ttl = some (codes "15m");
  jwt_refresh_secret = some (codes "rs");
  jwt_refresh_ttl = some (codes "7d");
  throttle_ttl = some (codes "60");
  throttle_limit = some (codes "10");
  port = some (codes "3000");
  simulate_notification_failure_rate = none;
}

variables_valid : validate_environment digits variables ≡ ok variables
unfolding validate_environment is_valid_environment is_environment_name is_filled_in is_int_between
    is_optional_rate read_number is_digit number_of_reversed
variables_valid = refl

app_config-limits_example :
    let config = app_config digits variables in
    (n : ℕ) × (config.port ≡ some (pos n))
    × (1 ≤ n)
    × (n ≤ 65535)
    × (is_filled_in config.access_secret ≡ true)
    × (is_filled_in config.access_ttl ≡ true)
    × (is_filled_in config.refresh_secret ≡ true)
    × (is_filled_in config.refresh_ttl ≡ true)
app_config-limits_example =
    app_config-limits digits variables variables (codes "3000") variables_valid refl refl
