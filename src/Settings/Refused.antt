-- ===== src/Settings/Refused.antt =====
-- What the validation of asyncio_gateway/helpers/internal/circuit_breaker_helper.py refuses.
use async_gateway.Prelude.{
  ◌≡◌, refl, String, true, some, List, [], ◌∷◌, arith, All, contains, keys, lookup, Dict,
}
use async_gateway.Values.{Value, dict, float, Fields, fields, ok, err, value_error}
use async_gateway.Values.Floats.{nan, is_negative}
use async_gateway.Settings.{breaker_config_keys, validated_breaker_config}
use async_gateway.Settings.Checks.{reject_unknown_keys, unknown, validated_number}

abbrev pub AllKnown : List String → List String → Type 0
AllKnown allowed ks = All (λ k. contains allowed k ≡ true) ks

unknown_of_AllKnown : (allowed ks : List String) → AllKnown allowed ks → unknown allowed ks ≡ []
unfolding unknown
unknown_of_AllKnown allowed [] h = refl
unknown_of_AllKnown allowed (k ∷ ks) (known, h) =
    rw (known, unknown) (unknown_of_AllKnown allowed ks h)

AllKnown-accepted :
    (config : Dict Value) (allowed : List String) (place : String)
    → AllKnown allowed (keys config)
    → reject_unknown_keys config allowed place ≡ ok tt
unfolding reject_unknown_keys
AllKnown-accepted config allowed place h = rw (unknown_of_AllKnown allowed (keys config) h)

-- A threshold that is not a number escapes as the host's `ValueError`, not as a
-- `ConfigurationError`, whatever else an otherwise known configuration holds.
pub nan_threshold_escapes :
    (fs : Fields)
    → AllKnown breaker_config_keys (keys (fields fs))
    → lookup "maximum_failures" (fields fs) ≡ some (float nan)
    → validated_breaker_config (dict fs) ≡ err value_error
unfolding validated_breaker_config validated_number is_negative
nan_threshold_escapes fs known given =
    ground (arith, AllKnown-accepted (fields fs) breaker_config_keys "circuit_breaker_config" known)
