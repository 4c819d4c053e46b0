-- ===== src/Settings.antt =====
-- The validation of a caller's `circuit_breaker_config`
-- (asyncio_gateway/helpers/internal/circuit_breaker_helper.py).
pub mod Checks
pub mod Retry
pub mod Refused
use async_gateway.Prelude.{
  ℕ, ◌+◌, ◌*◌, ◌-◌, ◌^◌, String, Bool, true, false, not, ◌||◌, ◌&&◌, Option, none, some, List, [],
  ◌∷◌, ◌==◌, ltb, leb, if◌then◌else◌, Dict, lookup, keys, has_key, contains,
}
use async_gateway.Prelude.Int.{ℤ, pos, negsuc}
use async_gateway.Values.{
  Value, none_value, bool, int, float, text, list, dict, function, exception_class, Values, nil,
  cons, Fields, fields, items, Refusal, not_a_mapping, wrong_type, below_minimum, not_whole,
  missing, unknown_name, unknown_keys, overflow_error, value_error, type_error, Result, ok, err,
  ◌>>=◌, ◌>>◌,
}
use async_gateway.Values.Floats.{Float, finite, infinite, nan, whole, is_negative, is_whole, floor}
use async_gateway.Settings.Checks.{
  validated_number, validated_bool, unknown, reject_unknown_keys, validated_exceptions,
  validated_callable,
}
use async_gateway.Settings.Retry.{RetrySettings, validated_retry_config, get_retry_policy}

abbrev pub breaker_config_keys : List String
breaker_config_keys = "maximum_failures" ∷ "timeout" ∷ "retry_config" ∷ "clock" ∷ "sleep" ∷ []

pub record BreakerSettings : Type 0 where
  pub maximum_failures : ℕ
  pub reset_timeout : Float
  pub clock : Option Value
  pub sleep : Option Value
  pub retry : Option RetrySettings

-- `failures != int(failures)` and `int(failures)`, of a number that is not negative.
whole_failures : Float → Result ℕ
whole_failures (finite negative m k) =
    if is_whole m k then ok (floor m k) else err (not_whole "maximum_failures")
whole_failures (infinite negative) = err overflow_error
whole_failures nan = err value_error

retry_in : Value → Result (Option RetrySettings)
retry_in none_value = ok none
retry_in value = do
  settings ← validated_retry_config value
  policy ← get_retry_policy settings
  ok (some policy)

validated_retry : Dict Value → Result (Option RetrySettings)
unfolding retry_in
validated_retry config = elim (lookup "retry_config" config) [
  | none ↦ ok none
  | some value ↦ retry_in value
]

-- `validated_breaker_config`
unfoldable pub validated_breaker_config : Value → Result BreakerSettings
unfolding whole_failures validated_retry
validated_breaker_config (dict fs) = do
  let config = fields fs
  reject_unknown_keys config breaker_config_keys "circuit_breaker_config"
  failures ← validated_number config "maximum_failures" (whole 5)
  maximum_failures ← whole_failures failures
  timeout ← validated_number config "timeout" (whole 60)
  clock ← validated_callable config "clock"
  sleep ← validated_callable config "sleep"
  retry ← validated_retry config
  ok (record {
    maximum_failures = maximum_failures;
    reset_timeout = timeout;
    clock = clock;
    sleep = sleep;
    retry = retry;
  })
validated_breaker_config _ = err (not_a_mapping "circuit_breaker_config")
