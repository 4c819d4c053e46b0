-- ===== src/Settings/Retry.antt =====
-- The `retry_config` of a caller and the waits that it is made into
-- (asyncio_gateway/helpers/internal/circuit_breaker_helper.py).
use async_gateway.Prelude.{
  ℕ, ◌*◌, ◌^◌, String, Bool, true, false, not, ◌||◌, Option, none, some, List, [], ◌∷◌, ◌==◌, ltb,
  if◌then◌else◌, Dict, lookup,
}
use async_gateway.Prelude.Int.{pos, negsuc}
use async_gateway.Values.{
  Value, none_value, int, float, text, list, dict, fields, not_a_mapping, wrong_type, not_whole,
  missing, unknown_name, overflow_error, value_error, type_error, Result, ok, err, ◌>>=◌, ◌>>◌,
}
use async_gateway.Values.Floats.{Float, finite, infinite, nan, whole, is_negative, is_whole, floor}
use async_gateway.Settings.Checks.{
  validated_number, validated_bool, reject_unknown_keys, validated_exceptions, validated_callable,
}

abbrev pub retry_config_keys : List String
retry_config_keys =
    "name" ∷ "allowed_retries" ∷ "retriable_exceptions" ∷ "abortable_exceptions"
    ∷ "on_retries_exhausted" ∷ "on_failed_attempt" ∷ "on_abort" ∷ "delay" ∷ "max_delay" ∷ "jitter"
    ∷ "backoff" ∷ []

pub record RetrySettings : Type 0 where
  pub name : Option String
  pub allowed_retries : ℕ
  pub delay : Float
  pub max_delay : Float
  pub jitter : Bool
  pub backoff : String
  pub retriable_exceptions : Option (List ℕ)
  pub abortable_exceptions : Option (List ℕ)
  pub on_retries_exhausted : Option Value
  pub on_failed_attempt : Option Value
  pub on_abort : Option Value

retries_in : Value → Result ℕ
retries_in (int (pos n)) = ok n
retries_in (int (negsuc n)) = err (not_whole "allowed_retries")
retries_in (float (finite negative m k)) =
    if not (is_whole m k) || is_negative (finite negative m k)
    then err (not_whole "allowed_retries")
    else ok (floor m k)
retries_in (float (infinite negative)) = err overflow_error
retries_in (float nan) = err value_error
retries_in _ = err (wrong_type "allowed_retries")

-- `allowed_retries`, which has no default.
validated_retries : Dict Value → Result ℕ
unfolding retries_in
validated_retries config = elim (lookup "allowed_retries" config) [
  | none ↦ err (missing "allowed_retries")
  | some value ↦ retries_in value
]

name_in : Value → Result (Option String)
name_in none_value = ok none
name_in (text s) = ok (some s)
name_in _ = err (wrong_type "name")

validated_name : Dict Value → Result (Option String)
unfolding name_in
validated_name config = elim (lookup "name" config) [ none ↦ ok none | some value ↦ name_in value ]

-- `backoff not in BACKOFF_NAMES`: a list or a dict cannot be hashed.
backoff_in : Value → Result String
backoff_in (text s) =
    if s == "constant" || s == "exponential" then ok s else err (unknown_name "backoff")
backoff_in (list vs) = err type_error
backoff_in (dict fs) = err type_error
backoff_in _ = err (unknown_name "backoff")

validated_backoff : Dict Value → Result String
unfolding backoff_in
validated_backoff config = elim (lookup "backoff" config) [
  | none ↦ ok "exponential"
  | some value ↦ backoff_in value
]

-- The defaults 0.1 and 10.0 of a wait; the first is the double nearest to it.
abbrev pub default_delay : Float
default_delay = finite false 3602879701896397 55

abbrev pub default_max_delay : Float
default_max_delay = whole 10

-- `validated_retry_config`
unfoldable pub validated_retry_config : Value → Result RetrySettings
unfolding validated_retries validated_name validated_backoff
validated_retry_config (dict fs) = do
  let config = fields fs
  reject_unknown_keys config retry_config_keys "retry_config"
  retries ← validated_retries config
  name ← validated_name config
  backoff ← validated_backoff config
  delay ← validated_number config "delay" default_delay
  max_delay ← validated_number config "max_delay" default_max_delay
  jitter ← validated_bool config "jitter" true
  retriable ← validated_exceptions config "retriable_exceptions"
  abortable ← validated_exceptions config "abortable_exceptions"
  on_retries_exhausted ← validated_callable config "on_retries_exhausted"
  on_failed_attempt ← validated_callable config "on_failed_attempt"
  on_abort ← validated_callable config "on_abort"
  ok (record {
    name = name;
    allowed_retries = retries;
    delay = delay;
    max_delay = max_delay;
    jitter = jitter;
    backoff = backoff;
    retriable_exceptions = retriable;
    abortable_exceptions = abortable;
    on_retries_exhausted = on_retries_exhausted;
    on_failed_attempt = on_failed_attempt;
    on_abort = on_abort;
  })
validated_retry_config _ = err (not_a_mapping "retry_config")

-- `timedelta(seconds=x)` for an x that is not negative: less than 10 ^ 9 days.
timedelta : Float → Result (Unit {0})
timedelta (finite negative m k) =
    if ltb m (86400 * 1000000000 * 2 ^ k) then ok tt else err overflow_error
timedelta (infinite negative) = err overflow_error
timedelta nan = err value_error

-- `get_retry_policy`: the waits are made into durations.
unfoldable pub get_retry_policy : RetrySettings → Result RetrySettings
unfolding timedelta
get_retry_policy r =
    if r.backoff == "exponential"
    then (do timedelta r.delay; timedelta r.max_delay; ok r)
    else if r.backoff == "constant"
    then (do timedelta r.delay; ok r)
    else err (unknown_name "backoff")
