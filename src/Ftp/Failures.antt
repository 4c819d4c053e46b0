-- ===== src/Ftp/Failures.antt =====
-- What can end an FTP session, and what is raised then (asyncio_gateway/logic/ftp_client.py):
-- `reply_status`, the table of transport errors, `transport_error_for` and the `except` clauses of
-- `handle_request`.
use async_gateway.Prelude.{ℕ, Bool, true, false, Option, none, some, List, [], ◌∷◌, if◌then◌else◌}
use async_gateway.Errors.{
  ErrorClass, configuration_error, circuit_open_error, ftp_status_error, gateway_timeout_error,
  tls_error, dns_error, connect_error, local_write_error, transport_error,
}

-- An exception object: an `aioftp.StatusCodeError` with the codes that it received, each as its number
-- where it is all digits; another error of aioftp; one of the families of the table; an error of the
-- package; or any other.
pub data Fault : Type 0 where
  status_code_error : (received : List (Option ℕ)) → Fault
  invalid_command ftp_exception timeout ssl_error gaierror connection os_error : Fault
  gateway : ErrorClass → (status : Option ℕ) → Fault
  foreign : ℕ → Fault

pub data Trouble : Type 0 where
  circuit_open : Trouble
  exhausted : Fault → Trouble
  fault : Fault → Trouble

unfoldable pub reply_status : List (Option ℕ) → Option ℕ
reply_status [] = none
reply_status (none ∷ codes) = reply_status codes
reply_status (some code ∷ codes) = some code

pub data Thrown : Type 0 where
  typed : ErrorClass → (status : Option ℕ) → Thrown
  cancelled : Thrown
  as_is : Fault → Thrown

-- `transport_error_for`, with the rows of the table in order.
unfoldable pub transport_error_for : Fault → Thrown
unfolding reply_status
transport_error_for (status_code_error received) = typed ftp_status_error (reply_status received)
transport_error_for invalid_command = typed configuration_error none
transport_error_for timeout = typed gateway_timeout_error none
transport_error_for ssl_error = typed tls_error none
transport_error_for gaierror = typed dns_error none
transport_error_for connection = typed connect_error none
transport_error_for os_error = typed local_write_error none
transport_error_for ftp_exception = typed transport_error none
transport_error_for (gateway class status) = as_is (gateway class status)
transport_error_for (foreign n) = as_is (foreign n)

-- `except (FailsafeError,) + TRANSPORT_FAULTS`
abbrev pub is_caught : Trouble → Bool
is_caught circuit_open = false
is_caught (exhausted cause) = true
is_caught (fault (gateway class status)) = false
is_caught (fault (foreign n)) = false
is_caught (fault e) = true

abbrev pub cause_of : Trouble → Thrown
cause_of circuit_open = typed circuit_open_error none
cause_of (exhausted cause) = transport_error_for cause
cause_of (fault e) = transport_error_for e

-- The `except` clauses; `being_cancelled` is what `_being_cancelled` finds.
unfoldable pub thrown_for : Bool → Trouble → Thrown
unfolding transport_error_for
thrown_for being_cancelled trouble =
    if is_caught trouble
    then (if being_cancelled then cancelled else cause_of trouble)
    else cause_of trouble
