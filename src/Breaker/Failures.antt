-- ===== src/Breaker/Failures.antt =====
-- What an attempt can raise, and the two classifications that need no policy: `RETRIABLE_FAILURES`
-- and `DEFAULT_ABORTABLE_EXCEPTIONS` of circuit_breaker_helper.py.
use async_gateway.Prelude.{ℕ, Bool, true, ◌||◌, List, [], ◌∷◌, any, eqb}
use async_gateway.Errors.{
  ErrorClass, configuration_error, response_too_large_error, local_write_error,
  path_containment_error, abortable_service_error, grpc_abortable_status_failure,
  is_subclass_of_any,
}

-- The classes of other libraries, and of the language, that the two tuples name.
pub data Family : Type 0 where
  asyncio_timeout os_error client_error ssh_error ftp_exception invalid_command : Family

abbrev family_index : Family → ℕ
family_index asyncio_timeout = 0
family_index os_error = 1
family_index client_error = 2
family_index ssh_error = 3
family_index ftp_exception = 4
family_index invalid_command = 5

-- An exception object: one of the package's classes, or one of others with the named families that
-- it is an instance of. `id` tells objects apart.
pub data Failure : Type 0 where
  gateway : (class : ErrorClass) (id : ℕ) → Failure
  foreign : (families : List Family) (id : ℕ) → Failure

abbrev belongs : List Family → Family → Bool
belongs families f = any (λ g. eqb (family_index g) (family_index f)) families

-- `except RETRIABLE_FAILURES`: every class of the package derives from `AsyncGatewayError`.
unfoldable pub is_caught : Failure → Bool
is_caught (gateway class id) = true
is_caught (foreign families id) =
    belongs families asyncio_timeout
    || belongs families os_error
    || belongs families client_error
    || belongs families ssh_error
    || belongs families ftp_exception

-- `isinstance(error, DEFAULT_ABORTABLE_EXCEPTIONS)`
unfoldable pub is_default_abortable : Failure → Bool
is_default_abortable (gateway class id) =
    is_subclass_of_any
      (abortable_service_error ∷ grpc_abortable_status_failure ∷ configuration_error
        ∷ response_too_large_error ∷ local_write_error ∷ path_containment_error ∷ [])
      class
is_default_abortable (foreign families id) = belongs families invalid_command
