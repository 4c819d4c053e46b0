-- ===== src/Sftp/Failures.antt =====
-- What can end an SFTP session, and what is raised then (asyncio_gateway/logic/sftp_client.py): the
-- table of transport errors, `transport_error_for` and the `except` clauses of `handle_request`.
use async_gateway.Prelude.{ℕ, Option, none, some, eqb, if◌then◌else◌}
use async_gateway.Errors.{
  ErrorClass, host_key_error, circuit_open_error, sftp_status_error, gateway_timeout_error,
  dns_error, connect_error, local_write_error, transport_error,
}
use async_gateway.Redirects.{Attempt, done, broke, Broken, validated_verb, resolve_verb}
use async_gateway.Redirects as Verbs

-- An exception object: an `asyncssh.SFTPError` with its code, another error of asyncssh, one of the
-- families of the table, an error of the package, or any other.
pub data Fault : Type 0 where
  sftp_error : (code : ℕ) → Fault
  ssh_error timeout gaierror connection os_error : Fault
  gateway : ErrorClass → (status : Option ℕ) → Fault
  foreign : ℕ → Fault

-- What ends a session: the server's key is not believed, or the breaker's `run` raises, or a call does.
pub data Trouble : Type 0 where
  host_key_refused circuit_open : Trouble
  exhausted : Fault → Trouble
  fault : Fault → Trouble

pub data Reply {ℓ} (A : Type ℓ) : Type ℓ where
  got : A → Reply A
  lost : Trouble → Reply A

abbrev pub broken_fault : Broken → Fault
broken_fault (Verbs.gateway class status) = gateway class status
broken_fault (Verbs.foreign n) = foreign n
broken_fault _ = foreign 0

-- `SFTP_STATUS_BY_FX_CODE.get`: 2 is `FX_NO_SUCH_FILE` and 3 `FX_PERMISSION_DENIED`.
abbrev pub status_by_fx_code : ℕ → Option ℕ
status_by_fx_code code = if eqb code 2 then some 404 else if eqb code 3 then some 403 else none

pub data Thrown : Type 0 where
  typed : ErrorClass → (status : Option ℕ) → Thrown
  as_is : Fault → Thrown

-- `transport_error_for`: the rows of the table in order, where a name lookup and a broken connection
-- are kinds of `OSError` that come before it.
unfoldable pub transport_error_for : Fault → Thrown
transport_error_for (sftp_error code) = typed sftp_status_error (status_by_fx_code code)
transport_error_for timeout = typed gateway_timeout_error none
transport_error_for gaierror = typed dns_error none
transport_error_for connection = typed connect_error none
transport_error_for os_error = typed local_write_error none
transport_error_for ssh_error = typed transport_error none
transport_error_for (gateway class status) = as_is (gateway class status)
transport_error_for (foreign n) = as_is (foreign n)

-- The `except` clauses of `handle_request`; an error that none of them names leaves as it is.
unfoldable pub thrown_for : Trouble → Thrown
unfolding transport_error_for
thrown_for host_key_refused = typed host_key_error none
thrown_for circuit_open = typed circuit_open_error none
thrown_for (exhausted cause) = transport_error_for cause
thrown_for (fault e) = transport_error_for e
