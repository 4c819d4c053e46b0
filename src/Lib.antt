-- ===== src/Lib.antt =====
-- A model of asyncio-gateway, the library of one entry point, `request()`, that dispatches a call
-- to a protocol client and returns one envelope for every protocol, with the theorems that make
-- its core correct.
--
-- How the parts work together. `request` checks its arguments, makes an envelope, awaits the
-- caller's pre-processor, constructs the client of the protocol, awaits its `handle_request`,
-- turns an error of the package into the envelope's `error`, and awaits the post-processor. A
-- client runs its transport through a circuit breaker that the registry keeps per destination; the
-- HTTP family follows redirects in a loop of its own; every body is read, and every transfer is
-- written, under a cap of bytes.
--
-- Which file models what:
-- - Values, Values.Floats, Values.Texts: the values of the language that reach the code, its
--   floats as fractions with a power of two, and what is used of its texts and of `urllib.parse`.
-- - Errors: the hierarchy of asyncio_gateway/utils/exceptions.py as a data type with `base` and
--   `class_code`, and `status_for` of asyncio_gateway/utils/status_map.py. Errors.Chain is
--   `_cause_chain` and `unwrap_cause`, over a store of exception objects, so that a chain can be a
--   cycle.
-- - Breaker: `CircuitBreakerHelper` of asyncio_gateway/helpers/internal/circuit_breaker_helper.py:
--   the state of a breaker as a record, `allows_execution`, `record_success` and `record_failure`.
--   Breaker.Attempt is the body of the loop in `run`, cut at its awaits; Breaker.Run is `run` for
--   one caller, and Breaker.Tasks the steps of several tasks that share one breaker.
-- - Settings: `validated_breaker_config` (Settings), `validated_retry_config` and
--   `get_retry_policy` (Settings.Retry) and the checks of single settings (Settings.Checks) of the
--   same file.
-- - Registry: `get_breaker` of asyncio_gateway/helpers/internal/breaker_registry.py over a map in
--   the order of use (Registry.Ordered). A breaker is known by its position among the constructed
--   ones, since callers share the object.
-- - Redirects: the helpers of one hop, and `resolve_verb` of
--   asyncio_gateway/utils/http_file_config.py; Redirects.Chain is the loop of `make_http_request`
--   of asyncio_gateway/helpers/internal/request_helper.py with its trace events.
-- - Gateway: asyncio_gateway/asyncio_gateway.py. Gateway.Envelope is
--   asyncio_gateway/utils/envelope.py, Gateway.Targets the protocol and the URL, Gateway.Checks
--   the processors, Gateway.Prepared what is checked before anything runs, and Gateway.Request the
--   rest of `request`, as the list of what happens.
-- - Protocols: `validated_protocol_info` and `destination_of` of
--   asyncio_gateway/helpers/internal/base.py; Protocols.Clients is the constructor that every
--   client shares, with the registry of breakers.
-- - Paths: `resolve_within` and `under` of asyncio_gateway/utils/paths.py.
-- - Transfers: `guard_declared_length` and `iter_capped` of
--   asyncio_gateway/utils/http_file_config.py, and `TransferBudget` with the write that charges it
--   of asyncio_gateway/utils/contained_io.py.
-- - JsonRpc: asyncio_gateway/logic/jsonrpc_client.py.
-- - Filters: what a request carries, of asyncio_gateway/helpers/internal/filters_helper.py, and
--   the choice of its filter, of asyncio_gateway/helpers/internal/__init__.py.
-- - Gcs: asyncio_gateway/logic/gcs_client.py. Gcs.Leases is the capacity with the steps of several
--   requests, Gcs.Calls one provider call under a lease, Gcs.Attempts one attempt, Gcs.Downloads
--   the ranges of a download, and Gcs.Requests what a request makes of the end of the breaker's
--   `run`.
-- - Soap: asyncio_gateway/logic/soap_client.py. Soap.Prolog is `scan_prolog`, Soap.Elements the
--   check of the depth, Soap.Faults the reading of a fault, Soap.Answers the judgement of a
--   response, Soap.Requests the envelope of a call, and Soap.Actions its version, its action and
--   the headers that these decide.
-- - Http: asyncio_gateway/logic/http_client.py. Http is the kinds of options, Http.Headers the
--   checks of headers, cookies and declared names, Http.Sessions of sessions, serializers and
--   tracers, Http.Limits of the verb, the bodies and the limits; Http.Client is
--   `HttpRequest.__init__`, and Http.Exchange `_exchange` with `transport_error_for` and
--   `_copy_into_envelope`.
-- - Graphql: asyncio_gateway/logic/graphql_client.py. Graphql is the request and what its
--   constructor does before the HTTP client's, Graphql.Accepts the headers, Graphql.Answers the
--   judgement of a response.
-- - Sftp: asyncio_gateway/logic/sftp_client.py. Sftp is the constructor with the credentials and
--   the host key policy, Sftp.Jobs what is asked for, Sftp.Sessions the session as the list of
--   what the server is asked, and Sftp.Failures the errors.
-- - Ftp: asyncio_gateway/logic/ftp_client.py. Ftp is the constructor with the choice of TLS,
--   Ftp.Sessions the session as the list of what happens, and Ftp.Failures the errors.
-- - Redaction: the masking of values, headers and cookies of asyncio_gateway/utils/redaction.py.
-- - Prelude holds the shared names, tests, lists, integers and dicts; Tests holds runs at concrete
--   inputs.
--
-- Bounds and fuel. The walk of a cause chain takes the code's own bound. `run` of a breaker and
-- the redirect loop take fuel; their termination theorems say which fuel is enough: three steps of
-- the loop for each allowed attempt, and one pass for each allowed redirect and one more. The
-- loops of a download, of a prolog and of a tree have fuel for one byte of the object, one
-- character of the text and one node of the tree for each pass. Integers are unbounded, as in the
-- language. A float is exact; where the host rounds (a whole number above 2 ^ 53), the model does
-- not. Clocks are whole nanoseconds.
--
-- Not modelled, and why. `pyfailsafe`, aiohttp, aioftp, asyncssh, the AWS, Google and gRPC
-- libraries are other packages: where the code calls them they are parameters (a policy, a
-- transport's reply, what a client writes to the envelope and raises). So are the redactions where
-- the gateway uses them, those of texts being regular expressions, `read_response`, which reads a
-- stream into files and text, and the methods of the language's texts. The S3 and gRPC clients,
-- and the rest of the HTTP, SOAP and GCS clients, the file writers, the TLS options and the
-- tracer's own callbacks are left out, as code that mostly calls those libraries and the system.
-- Messages of errors are not modelled; their classes, codes and statuses are.
mod Prelude
pub mod Errors
pub mod Values
pub mod Settings
pub mod Breaker
pub mod Registry
pub mod Redirects
pub mod Gateway
pub mod Transfers
pub mod JsonRpc
pub mod Protocols
pub mod Paths
pub mod Redaction
pub mod Filters
pub mod Gcs
pub mod Soap
pub mod Http
pub mod Graphql
pub mod Sftp
pub mod Ftp
mod Tests
