-- ===== src/Registry.antt =====
-- The process-lifetime registry of breakers (asyncio_gateway/helpers/internal/breaker_registry.py).
-- A breaker is an object that its callers share, so the registry holds identities: positions in the
-- list of the breakers that were constructed.
pub mod Ordered
pub mod Hits
pub mod Recency
pub mod Histories
use async_gateway.Prelude.{
  ℕ, String, Bool, true, false, ◌&&◌, Option, none, some, List, [], ◌∷◌, ◌++◌, ◌==◌, ◌≡◌, ◌↔◌,
  arith, eq_iff, length, Dict, lookup, if◌then◌else◌,
}
use async_gateway.Prelude.Int.{ℤ, eqb_ℤ, eqb_ℤ_iff}
use async_gateway.Values.{Value, none_value, dict, Fields, end, Result, ok, err}
use async_gateway.Breaker.{Breaker, Policy, Callback, new_breaker}
use async_gateway.Settings.{BreakerSettings, validated_breaker_config}
use async_gateway.Settings.Retry.{RetrySettings}
use async_gateway.Registry.Ordered.{find, move_to_end, insert, evict}

-- `BreakerKey`
pub record BreakerKey : Type 0 where
  pub family : String
  pub host : String
  pub port : ℤ

unfoldable pub same_key : BreakerKey → BreakerKey → Bool
same_key a b = a.family == b.family && a.host == b.host && eqb_ℤ a.port b.port

pub same_key_iff : (a b : BreakerKey) → (same_key a b ≡ true) ↔ (a ≡ b)
unfolding same_key
same_key_iff a b =
    ground (arith, eq_iff a.family b.family, eq_iff a.host b.host, eqb_ℤ_iff a.port b.port)

-- The registry, least recently used first, and every breaker that was constructed.
pub record World : Type 0 where
  pub entries : List (BreakerKey × ℕ)
  pub breakers : List Breaker

abbrev pub breaker_registry_max : ℕ
breaker_registry_max = 256

-- `{} if config is None else config`
abbrev pub given : Option Value → Value
given none = dict end
given (some none_value) = dict end
given (some config) = config

-- What `pyfailsafe` makes of the retry settings, and the caller's callbacks.
pub record Callbacks : Type 0 where
  pub policy : RetrySettings → Policy
  pub callback : Value → Callback

abbrev pub policy_of : Callbacks → Option RetrySettings → Option Policy
policy_of c none = none
policy_of c (some r) = some (c.policy r)

abbrev pub callback_of : Callbacks → Option Value → Option Callback
callback_of c none = none
callback_of c (some v) = some (c.callback v)

abbrev pub hook : (RetrySettings → Option Value) → Option RetrySettings → Option Value
hook f none = none
hook f (some r) = f r

-- `CircuitBreakerHelper(**settings)`; the clock and the wait are those of the turns.
unfoldable pub construct : Callbacks → BreakerSettings → Breaker
construct c s =
    new_breaker s.maximum_failures s.reset_timeout (policy_of c s.retry)
      (callback_of c (hook (λ r. r.on_retries_exhausted) s.retry))
      (callback_of c (hook (λ r. r.on_failed_attempt) s.retry))
      (callback_of c (hook (λ r. r.on_abort) s.retry))

-- The lookup and the insertion, once the configuration is accepted.
pub obtain : Callbacks → ℕ → BreakerKey → BreakerSettings → World → ℕ × World
unfolding construct
obtain c maximum key settings w = elim (find same_key key w.entries) [
  | some id ↦ (id, record w { entries = move_to_end same_key key id w.entries })
  | none ↦ (
    length w.breakers,
    record {
      entries = evict maximum (insert same_key key (length w.breakers) w.entries);
      breakers = w.breakers ++ construct c settings ∷ [];
    },
  )
]

abbrev pub with_settings :
    Callbacks → ℕ → BreakerKey → World → Result BreakerSettings → Result ℕ × World
with_settings c maximum key w (err e) = (err e, w)
with_settings c maximum key w (ok settings) =
    let (id, w') = obtain c maximum key settings w in (ok id, w')

-- `get_breaker`: the configuration is checked on every call, a hit included.
unfoldable pub get_breaker : Callbacks → ℕ → BreakerKey → Option Value → World → Result ℕ × World
unfolding obtain
get_breaker c maximum key config w =
    with_settings c maximum key w (validated_breaker_config (given config))
