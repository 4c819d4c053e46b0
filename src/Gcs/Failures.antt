-- ===== src/Gcs/Failures.antt =====
-- What a provider's call raises, and what the client makes of it
-- (asyncio_gateway/logic/gcs_client.py).
use async_gateway.Prelude.{ℕ, Bool, true, false, ◌&&◌, List, [], ◌∷◌, any, leb, eqb, if◌then◌else◌}
use async_gateway.Prelude.Int.{pos}
use async_gateway.Values.{Value, int}
use async_gateway.Errors.{
  ErrorClass, configuration_error, dns_error, tls_error, gateway_timeout_error, connect_error,
  transport_error,
}

-- The exceptions by the tests that the client makes on them. `service` is a refusal of the provider,
-- with the first status that is not `None` of its response or its code; the two failures after it are
-- the client's own snapshots of one. A cancellation is named by the one that
-- `_earliest_contiguous_cancellation` selects for it, and a foreign exception by its identity.
pub data Failure : Type 0 where
  credential : Failure
  name_resolution tls timed_out connection operating_system provider_transport : Failure
  service : Value → Failure
  service_failure abortable_service_failure : ℕ → Failure
  gateway : ErrorClass → Failure
  cancelled foreign : ℕ → Failure

-- What an await gives, or raises.
pub data Answer {ℓ} (Given : Type ℓ) : Type ℓ where
  failed : Failure → Answer Given
  answered : Given → Answer Given

infixl 5 ◌>>=◌ ◌>>◌
abbrev pub ◌>>=◌ {ℓ κ} : {A : Type ℓ} {B : Type κ} → Answer A → (A → Answer B) → Answer B
failed e >>= f = failed e
answered a >>= f = f a

abbrev pub ◌>>◌ {ℓ} : {B : Type ℓ} → Answer (Unit {0}) → Answer B → Answer B
m >> k = m >>= λ unit. k

abbrev pub gcs_retryable_statuses : List ℕ
gcs_retryable_statuses = 408 ∷ 429 ∷ 500 ∷ 502 ∷ 503 ∷ 504 ∷ []

-- The status of `_service_failure_for`.
unfoldable pub status_of : Value → ℕ
status_of (int (pos n)) = if leb 100 n && leb n 599 then n else 502
status_of _ = 502

-- `_service_failure_for`; its details, which are texts for the envelope, are left out.
unfoldable pub service_failure_for : Value → Failure
unfolding status_of
service_failure_for raw_status =
    let status = status_of raw_status in
    if any (λ s. eqb s status) gcs_retryable_statuses
    then service_failure status
    else abortable_service_failure status

-- `_transport_error_for`, on the exceptions of `_GCS_TRANSPORT_FAILURES`.
unfoldable pub transport_error_for : Failure → ErrorClass
transport_error_for name_resolution = dns_error
transport_error_for tls = tls_error
transport_error_for timed_out = gateway_timeout_error
transport_error_for connection = connect_error
transport_error_for _ = transport_error

-- `isinstance(error, _GCS_TRANSPORT_FAILURES)`
abbrev pub is_transport_failure : Failure → Bool
is_transport_failure name_resolution = true
is_transport_failure tls = true
is_transport_failure timed_out = true
is_transport_failure connection = true
is_transport_failure operating_system = true
is_transport_failure provider_transport = true
is_transport_failure _ = false

-- The `except` clauses around the body of an attempt.
unfoldable pub converted : Failure → Failure
converted credential = gateway configuration_error
converted (service raw) = service_failure_for raw
converted e = if is_transport_failure e then gateway (transport_error_for e) else e

-- What the client makes of an error of the cleanup.
unfoldable pub converted_cleanup : Failure → Failure
unfolding status_of
converted_cleanup (service raw) = abortable_service_failure (status_of raw)
converted_cleanup credential = gateway configuration_error
converted_cleanup e = if is_transport_failure e then gateway (transport_error_for e) else e
