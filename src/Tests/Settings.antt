-- ===== src/Tests/Settings.antt =====
-- The breaker configuration of asyncio_gateway/helpers/internal/circuit_breaker_helper.py at concrete
-- inputs.
use async_gateway.Values.Floats.{floor}
use async_gateway.Settings.Checks.{validated_callable}
use async_gateway.Values.Floats.{is_whole}
use async_gateway.Prelude.{lookup}
use async_gateway.Settings.Checks.{validated_number}
use async_gateway.Settings.Checks.{reject_unknown_keys}
use async_gateway.Prelude.{◌≡◌, refl, none}
use async_gateway.Prelude.Int.{pos}
use async_gateway.Values.{dict, field, end, int, float, ok, Fields}
use async_gateway.Values.Floats.{nan, whole}
use async_gateway.Settings.{validated_breaker_config, BreakerSettings}

abbrev three_failures : Fields
three_failures = field "maximum_failures" (int (pos 3)) end

abbrev three_settings : BreakerSettings
three_settings = record {
  maximum_failures = 3;
  reset_timeout = whole 60;
  clock = none;
  sleep = none;
  retry = none;
}

three_accepted : validated_breaker_config (dict three_failures) ≡ ok three_settings
unfolding validated_breaker_config reject_unknown_keys validated_number lookup is_whole
    validated_callable floor
three_accepted = refl

abbrev nan_failures : Fields
nan_failures = field "maximum_failures" (float nan) end
