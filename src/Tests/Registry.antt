-- ===== src/Tests/Registry.antt =====
-- asyncio_gateway/helpers/internal/breaker_registry.py at concrete inputs.
use async_gateway.Values.Floats.{floor}
use async_gateway.Registry.Ordered.{without}
use async_gateway.Registry.Ordered.{move_to_end}
use async_gateway.Registry.{same_key}
use async_gateway.Registry.Ordered.{insert}
use async_gateway.Registry.Ordered.{find}
use async_gateway.Settings.Checks.{validated_callable}
use async_gateway.Values.Floats.{is_whole}
use async_gateway.Prelude.{drop, length, ◌-◌, lookup}
use async_gateway.Settings.Checks.{validated_number}
use async_gateway.Settings.Checks.{reject_unknown_keys}
use async_gateway.Prelude.{ℕ, ◌≡◌, refl, true, none, some, Option, List, [], ◌∷◌}
use async_gateway.Prelude.Int.{pos}
use async_gateway.Values.{Value, list, nil, ok}
use async_gateway.Values.Floats.{whole}
use async_gateway.Settings.{BreakerSettings, validated_breaker_config}
use async_gateway.Registry.{BreakerKey, Callbacks, get_breaker, given}
use async_gateway.Registry.Ordered.{evict}
use async_gateway.Registry.Histories.{after, held, empty, accepted, recency, held-after}

abbrev pub plain : Callbacks
plain = record {
  policy = λ s. record {
    allowed_retries = 0;
    should_abort = λ e. true;
    is_retriable = λ e. true;
    for_attempt = λ n. 0;
  };
  callback = λ v n. none;
}

abbrev host : ℕ → BreakerKey
host n = record { family = "https"; host = "example.org"; port = pos n }

-- Three hosts, the first used twice, and one call with a configuration that is no mapping.
abbrev calls : List (BreakerKey × Option Value)
calls =
    (host 1, none)
    ∷ (host 2, none)
    ∷ (host 1, none)
    ∷ (host 4, some (list nil))
    ∷ (host 3, none)
    ∷ []

two_recent : held (after plain 2 empty calls) ≡ host 1 ∷ host 3 ∷ []
unfolding get_breaker validated_breaker_config reject_unknown_keys validated_number lookup is_whole
    validated_callable find evict insert same_key move_to_end without
two_recent = refl

held-after_example :
    held (after plain 2 empty calls)
    ≡ drop (length (recency [] (accepted calls)) - 2) (recency [] (accepted calls))
held-after_example = held-after plain 2 calls

abbrev defaults : BreakerSettings
defaults = record {
  maximum_failures = 5;
  reset_timeout = whole 60;
  clock = none;
  sleep = none;
  retry = none;
}

first_call : (get_breaker plain 2 (host 1) none empty).0 ≡ ok 0
unfolding get_breaker validated_breaker_config reject_unknown_keys validated_number lookup is_whole
    validated_callable find
first_call = refl

defaults_accepted : validated_breaker_config (given none) ≡ ok defaults
unfolding validated_breaker_config reject_unknown_keys validated_number lookup is_whole
    validated_callable floor
defaults_accepted = refl
