-- ===== src/Gcs/Requests/Markers.antt =====
-- The private markers of asyncio_gateway/logic/gcs_client.py do not leave a request.
use async_gateway.Prelude.{ℕ, ◌≡◌, refl, Bool, true, false, Option, none, some, arith}
use async_gateway.Errors.{async_gateway_error, abortable_service_error, is_subclass_of_any}
use async_gateway.Breaker.{Breaker, Policy}
use async_gateway.Breaker.Failures.{Failure, gateway, foreign, is_caught, is_default_abortable}
use async_gateway.Breaker.Attempt.{
  Outcome, returned, circuit_open, retries_exhausted, raised, policy_aborts,
}
use async_gateway.Breaker.Run.{Turn, run}
use async_gateway.Breaker.Run.Raised.{IsPlain, IsSorted, run-IsSorted}
use async_gateway.Gcs.Requests.{Published, exception, metadata, status_error, published}

abbrev pub is_marker : Failure → Bool
is_marker (gateway async_gateway_error id) = true
is_marker (gateway abortable_service_error id) = true
is_marker _ = false

-- The status of the private snapshot that a breaker's `run` ended with, if it did.
abbrev pub marker_in {ℓ} : {Given : Type ℓ} → Outcome Given → Option ℕ
marker_in (raised (gateway abortable_service_error status)) = some status
marker_in (retries_exhausted (gateway async_gateway_error status)) = some status
marker_in _ = none

-- A snapshot is published as a `GcsStatusError` of its own status, and nothing else is; an exception
-- that leaves the request is no snapshot.
abbrev pub IsPublic {ℓ} : {Given : Type ℓ} → Option ℕ → Published Given → Type 0
IsPublic (some status) (status_error n) = n ≡ status
IsPublic (some status) _ = ⊥
IsPublic none (exception e) = is_marker e ≡ false
IsPublic none (metadata m) = Unit
IsPublic none (status_error status) = ⊥

published-IsPublic {ℓ} :
    {Given : Type ℓ} (policy : Option Policy) (o : Outcome Given)
    → ((id : ℕ) → policy_aborts policy (gateway async_gateway_error id) ≡ false)
    → IsSorted policy o
    → IsPublic (marker_in o) (published o)
unfolding published is_caught is_default_abortable is_subclass_of_any
published-IsPublic policy (returned m) h s = tt
published-IsPublic policy (circuit_open recent) h s = refl
published-IsPublic policy (raised (foreign fs id)) h s = refl
published-IsPublic policy (raised (gateway async_gateway_error id)) h s = ground (arith, h id)
published-IsPublic policy (raised (gateway abortable_service_error id)) h s = refl
published-IsPublic policy (raised (gateway _ id)) h s = refl
published-IsPublic policy (retries_exhausted (foreign fs id)) h s = refl
published-IsPublic policy (retries_exhausted (gateway async_gateway_error id)) h s = refl
published-IsPublic policy (retries_exhausted (gateway abortable_service_error id)) h s = cc
published-IsPublic policy (retries_exhausted (gateway _ id)) h s = refl

-- Without callbacks, and with a retry policy that does not abort on the root class of the package, no
-- private snapshot of a service failure leaves a request, whatever the attempts do: a snapshot that
-- `run` ended with, its retries exhausted or not retried, is published as a `GcsStatusError` of its own
-- status, and no other end of `run` as one.
pub run-IsPublic {ℓ} :
    {Given : Type ℓ} (turns : ℕ → Turn Given) (fuel : ℕ) (b b' : Breaker) (o : Outcome Given)
    (n : ℕ)
    → IsPlain b.retry_policy b
    → ((id : ℕ) → policy_aborts b.retry_policy (gateway async_gateway_error id) ≡ false)
    → run turns fuel b ≡ some (o, b', n)
    → IsPublic (marker_in o) (published o)
run-IsPublic turns fuel b b' o n plain h got =
    published-IsPublic b.retry_policy o h (run-IsSorted turns fuel b b' o n plain got)
