-- ===== src/Http/Exchange/Typed.antt =====
-- Every failure of the transport leaves the HTTP client as an error of the package
-- (asyncio_gateway/logic/http_client.py).
use async_gateway.Prelude.{
  ℕ, ◌≡◌, refl, ◌∙◌, Bool, true, false, Option, none, some, List, [], ◌∷◌, arith, any, is_some,
  Dict,
}
use async_gateway.Values.{Value}
use async_gateway.Errors.{ErrorClass}
use async_gateway.Breaker.{Breaker}
use async_gateway.Breaker.Failures.{Failure, gateway, foreign}
use async_gateway.Breaker.Attempt.{Outcome, returned, circuit_open, retries_exhausted, raised}
use async_gateway.Breaker.Run.{Turn, run}
use async_gateway.Breaker.Run.Raised.{IsPlain}
use async_gateway.Breaker.Run.Sources.{ReplyFails, OutcomeFails, run-OutcomeFails}
use async_gateway.Gateway.{Host}
use async_gateway.Http.Exchange.{
  Family, transport_errors, faults_of, classified, Thrown, typed, as_is, transport_error_for,
  reclassified, is_transport_fault, HttpResult, Decoder, exchange, concluded,
}
use async_gateway.Http.Exchange as Exchange

-- The clause that catches, and the table that classifies, agree.
classified-is_some :
    (is_instance : Family → Bool) (table : List (Family × ErrorClass))
    → is_some (classified is_instance table) ≡ any is_instance (faults_of table)
unfolding classified
classified-is_some is_instance [] = refl
classified-is_some is_instance ((family, class) ∷ rows) =
    ground (arith, classified-is_some is_instance rows)

-- What leaves the client is an error of the package.
abbrev pub is_typed : Thrown → Bool
is_typed (typed class status) = true
is_typed (as_is (gateway class id)) = true
is_typed (as_is (foreign families id)) = false

abbrev pub all_typed : Option Thrown → Bool
all_typed none = true
all_typed (some thrown) = is_typed thrown

module _ (is_instance : ℕ → Family → Bool) where
  -- An object of the package, or of a family that the table names.
  abbrev pub is_expected : Failure → Bool
  is_expected (gateway class id) = true
  is_expected (foreign families id) = is_transport_fault is_instance (foreign families id)

  reclassified-is_typed :
      (cause : Failure) (class : Option ErrorClass)
      → is_some class ≡ true
      → is_typed (reclassified cause class) ≡ true
  reclassified-is_typed cause none h = cc
  reclassified-is_typed cause (some class) h = refl

  transport_error_for-is_typed :
      (e : Failure)
      → is_expected e ≡ true
      → is_typed (transport_error_for is_instance (some e)) ≡ true
  unfolding transport_error_for is_transport_fault
  transport_error_for-is_typed (gateway class id) h = refl
  transport_error_for-is_typed (foreign families id) h =
      reclassified-is_typed (foreign families id) (classified (is_instance id) transport_errors)
        (classified-is_some (is_instance id) transport_errors ∙ h)

  module _ (host : Host) (d : Decoder) (env : Dict Value) where
    answered-all_typed : (r : HttpResult) → all_typed (Exchange.answered host d r env).thrown ≡ true
    unfolding Exchange.answered
    answered-all_typed r = ground arith

    exchange-all_typed :
        (o : Outcome HttpResult)
        → OutcomeFails (λ e. is_expected e ≡ true) o
        → all_typed (exchange host d is_instance env o).thrown ≡ true
    unfolding exchange
    exchange-all_typed (returned r) h = answered-all_typed r
    exchange-all_typed (circuit_open recent) h = refl
    exchange-all_typed (retries_exhausted e) h = transport_error_for-is_typed e h
    exchange-all_typed (raised (gateway class id)) h = ground arith
    exchange-all_typed (raised (foreign families id)) h =
        rw h (transport_error_for-is_typed (foreign families id) h)

-- Where every failure of a call is an error of the package or of a class that the client's table
-- names, and the breaker has no callbacks, the client returns its envelope or raises an error of the
-- package, whatever the breaker's policy makes of the failures.
pub exchange-is_typed :
    (is_instance : ℕ → Family → Bool) (host : Host) (d : Decoder) (env : Dict Value)
    (turns : ℕ → Turn HttpResult) (fuel : ℕ) (b b' : Breaker) (o : Outcome HttpResult) (n : ℕ)
    → ((m : ℕ) → ReplyFails (λ e. is_expected is_instance e ≡ true) (turns m).reply)
    → IsPlain b.retry_policy b
    → run turns fuel b ≡ some (o, b', n)
    → all_typed (exchange host d is_instance env o).thrown ≡ true
exchange-is_typed is_instance host d env turns fuel b b' o n fails v got =
    exchange-all_typed is_instance host d env o
      (run-OutcomeFails (λ e. is_expected is_instance e ≡ true) turns fuel b b' o n fails v got)
