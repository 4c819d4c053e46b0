-- ===== src/Gcs/Requests.antt =====
-- What a GCS request makes of the end of the breaker's `run` (asyncio_gateway/logic/gcs_client.py):
-- the `except` clauses that `handle_request`, `_handle_download` and `_handle_head_or_list` share, with
-- `_public_service_error`.
pub mod Markers
use async_gateway.Prelude.{ℕ, Option, none, some, List, [], ◌∷◌}
use async_gateway.Errors.{
  ErrorClass, async_gateway_error, abortable_service_error, circuit_open_error, transport_error,
  gcs_status_error, gcs_capacity_error,
}
use async_gateway.Breaker.Failures.{Failure, gateway, foreign}
use async_gateway.Breaker.Attempt.{
  Outcome, returned, circuit_open, retries_exhausted, raised, Reply,
}
use async_gateway.Breaker.Attempt
use async_gateway.Gcs.Failures.{Answer, failed, answered}
use async_gateway.Gcs.Failures as Provider

-- The exception objects as the breaker sees them. `_GcsServiceFailure` is the only object whose class
-- the package's root stands for; its identity is its status, and so is that of
-- `_AbortableGcsServiceFailure`.
unfoldable pub seen : Provider.Failure → Failure
seen (Provider.service_failure status) = gateway async_gateway_error status
seen (Provider.abortable_service_failure status) = gateway abortable_service_error status
seen (Provider.gateway c) = gateway c 0
seen (Provider.cancelled c) = foreign [] c
seen (Provider.foreign n) = foreign [] n
seen _ = foreign [] 0

-- What an attempt gives to the breaker.
unfoldable pub replied {ℓ} : {Given : Type ℓ} → Answer Given → Reply Given
unfolding seen
replied (failed e) = Attempt.failed (seen e)
replied (answered a) = Attempt.answered a

-- How a request ends: with its metadata, with a `GcsStatusError` of a status, or with an exception.
pub data Published {ℓ} (Given : Type ℓ) : Type ℓ where
  metadata : Given → Published Given
  status_error : ℕ → Published Given
  exception : Failure → Published Given

unfoldable pub published {ℓ} : {Given : Type ℓ} → Outcome Given → Published Given
published (returned m) = metadata m
published (circuit_open recent) = exception (gateway circuit_open_error 0)
published (raised (gateway abortable_service_error status)) = status_error status
published (raised e) = exception e
published (retries_exhausted (gateway async_gateway_error status)) = status_error status
published (retries_exhausted (gateway c id)) = exception (gateway c id)
published (retries_exhausted (foreign families id)) = exception (gateway transport_error 0)
