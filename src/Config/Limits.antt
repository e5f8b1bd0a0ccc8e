-- ===== src/Config/Limits.antt =====
-- What the services find in the configuration of an environment that was validated.
use backend_assessment_chall.Prelude.{Option-cases, arith, inl, inr, some, true, ℕ, ◌≡◌, ◌≤◌}
use backend_assessment_chall.Config.{
  EnvironmentVariables, Numbers, app_config, is_filled_in, is_int_between, is_valid_environment,
  parsed, validate_environment,
}
use backend_assessment_chall.Prelude.Int.{negsuc, pos, ℤ}
use backend_assessment_chall.Prelude.Text.{Text}
use backend_assessment_chall.World.{ok}

module _ (numbers : Numbers) where
  in_range :
      (low top : ℕ) (t : Text) (x : ℤ)
      → numbers.number t ≡ some x
      → is_int_between numbers low (some top) (some t) ≡ true
      → (n : ℕ) × (numbers.number t ≡ some (pos n)) × (low ≤ n) × (n ≤ top)
  unfolding is_int_between
  in_range low top t (pos n) e h = (n, e, ground arith, ground arith)
  in_range low top t (negsuc n) e h = ground arith

  int_between-range :
      (low top : ℕ) (t : Text)
      → is_int_between numbers low (some top) (some t) ≡ true
      → (n : ℕ) × (numbers.number t ≡ some (pos n)) × (low ≤ n) × (n ≤ top)
  unfolding is_int_between
  int_between-range low top t h = elim (Option-cases (numbers.number t)) [
    | inl bad ↦ ground arith
    | inr (x, is_x) ↦ in_range low top t x is_x h
  ]

  valid-rules :
      (env env' : EnvironmentVariables)
      → validate_environment numbers env ≡ ok env'
      → (env' ≡ env) × (is_valid_environment numbers env ≡ true)
  unfolding validate_environment
  valid-rules env env' valid = (ground arith, ground arith)

  -- In a configuration that is made of a validated environment the two secrets and lifetimes of the
  -- tokens are set and not empty, and the port is between 1 and 65535. For the port it is supposed
  -- that `parseInt` and `Number` agree on its text.
  pub app_config-limits :
      (env env' : EnvironmentVariables) (t : Text)
      → validate_environment numbers env ≡ ok env'
      → env'.port ≡ some t
      → numbers.parse_int t ≡ numbers.number t
      → let config = app_config numbers env' in
        (n : ℕ) × (config.port ≡ some (pos n))
        × (1 ≤ n)
        × (n ≤ 65535)
        × (is_filled_in config.access_secret ≡ true)
        × (is_filled_in config.access_ttl ≡ true)
        × (is_filled_in config.refresh_secret ≡ true)
        × (is_filled_in config.refresh_ttl ≡ true)
  unfolding app_config parsed is_valid_environment
  app_config-limits env env' t valid set agree =
      let (same, rules) = valid-rules env env' valid in
      let (n, is_n, low, high) = int_between-range 1 65535 t (ground arith) in
      (n, ground arith, low, high, ground arith, ground arith, ground arith, ground arith)
