-- ===== src/Errors.antt =====
-- The typed exception hierarchy (asyncio_gateway/utils/exceptions.py), with the two private markers
-- of asyncio_gateway/helpers/internal/circuit_breaker_helper.py, and the status table
-- (asyncio_gateway/utils/status_map.py).
pub mod Table
pub mod Chain
use async_gateway.Prelude.{
  ℕ, zero, suc, String, Bool, true, false, ◌||◌, Option, none, some, List, [], ◌∷◌, ◌==◌, Dict,
  lookup, contains, any,
}

pub data ErrorClass : Type 0 where
  async_gateway_error : ErrorClass
  configuration_error unsupported_verb_error : ErrorClass
  processor_error : ErrorClass
  serialization_error unsafe_xml_error : ErrorClass
  path_containment_error local_write_error : ErrorClass
  transport_error connect_error dns_error tls_error host_key_error : ErrorClass
  gateway_timeout_error response_too_large_error response_too_deep_error : ErrorClass
  circuit_open_error stack_exhausted_error gcs_capacity_error : ErrorClass
  protocol_error http_status_error json_rpc_error json_rpc_protocol_error : ErrorClass
  graphql_error graphql_protocol_error s3_status_error gcs_status_error : ErrorClass
  grpc_status_error ftp_status_error sftp_status_error soap_fault_error : ErrorClass
  abortable_service_error grpc_abortable_status_failure : ErrorClass

-- `type(exc).__name__`
unfoldable pub class_name : ErrorClass → String
class_name async_gateway_error = "AsyncGatewayError"
class_name configuration_error = "ConfigurationError"
class_name unsupported_verb_error = "UnsupportedVerbError"
class_name processor_error = "ProcessorError"
class_name serialization_error = "SerializationError"
class_name unsafe_xml_error = "UnsafeXmlError"
class_name path_containment_error = "PathContainmentError"
class_name local_write_error = "LocalWriteError"
class_name transport_error = "TransportError"
class_name connect_error = "ConnectError"
class_name dns_error = "DnsError"
class_name tls_error = "TlsError"
class_name host_key_error = "HostKeyError"
class_name gateway_timeout_error = "GatewayTimeoutError"
class_name response_too_large_error = "ResponseTooLargeError"
class_name response_too_deep_error = "ResponseTooDeepError"
class_name circuit_open_error = "CircuitOpenError"
class_name stack_exhausted_error = "StackExhaustedError"
class_name gcs_capacity_error = "GcsCapacityError"
class_name protocol_error = "ProtocolError"
class_name http_status_error = "HttpStatusError"
class_name json_rpc_error = "JsonRpcError"
class_name json_rpc_protocol_error = "JsonRpcProtocolError"
class_name graphql_error = "GraphqlError"
class_name graphql_protocol_error = "GraphqlProtocolError"
class_name s3_status_error = "S3StatusError"
class_name gcs_status_error = "GcsStatusError"
class_name grpc_status_error = "GrpcStatusError"
class_name ftp_status_error = "FtpStatusError"
class_name sftp_status_error = "SftpStatusError"
class_name soap_fault_error = "SoapFaultError"
class_name abortable_service_error = "AbortableServiceError"
class_name grpc_abortable_status_failure = "_GrpcAbortableStatusFailure"

-- The base class named in each `class` line; that of `AsyncGatewayError` is not the package's.
unfoldable pub base : ErrorClass → Option ErrorClass
base async_gateway_error = none
base unsupported_verb_error = some configuration_error
base unsafe_xml_error = some serialization_error
base connect_error = some transport_error
base dns_error = some transport_error
base tls_error = some transport_error
base host_key_error = some transport_error
base gateway_timeout_error = some transport_error
base response_too_large_error = some transport_error
base response_too_deep_error = some transport_error
base http_status_error = some protocol_error
base json_rpc_error = some protocol_error
base json_rpc_protocol_error = some protocol_error
base graphql_error = some protocol_error
base graphql_protocol_error = some protocol_error
base s3_status_error = some protocol_error
base gcs_status_error = some protocol_error
base grpc_status_error = some protocol_error
base ftp_status_error = some protocol_error
base sftp_status_error = some protocol_error
base soap_fault_error = some protocol_error
base _ = some async_gateway_error

-- The class attribute `code`, inherited where a class declares none.
unfoldable pub class_code : ErrorClass → String
class_code async_gateway_error = "GATEWAY"
class_code configuration_error = "CONFIG"
class_code unsupported_verb_error = "CONFIG"
class_code processor_error = "PROCESSOR"
class_code serialization_error = "SERIALIZATION"
class_code unsafe_xml_error = "XML_UNSAFE"
class_code path_containment_error = "PATH"
class_code local_write_error = "PATH"
class_code transport_error = "TRANSPORT"
class_code connect_error = "CONNECT"
class_code dns_error = "DNS"
class_code tls_error = "TLS"
class_code host_key_error = "HOST_KEY"
class_code gateway_timeout_error = "TIMEOUT"
class_code response_too_large_error = "RESPONSE_TOO_LARGE"
class_code response_too_deep_error = "RESPONSE_TOO_DEEP"
class_code circuit_open_error = "CIRCUIT_OPEN"
class_code stack_exhausted_error = "STACK_EXHAUSTED"
class_code gcs_capacity_error = "GCS_CAPACITY"
class_code protocol_error = "PROTOCOL"
class_code http_status_error = "HTTP_STATUS"
class_code json_rpc_error = "JSONRPC_ERROR"
class_code json_rpc_protocol_error = "JSONRPC_PROTOCOL"
class_code graphql_error = "GRAPHQL_ERROR"
class_code graphql_protocol_error = "GRAPHQL_PROTOCOL"
class_code s3_status_error = "S3_STATUS"
class_code gcs_status_error = "GCS_STATUS"
class_code grpc_status_error = "GRPC_STATUS"
class_code ftp_status_error = "FTP_STATUS"
class_code sftp_status_error = "SFTP_STATUS"
class_code soap_fault_error = "SOAP_FAULT"
class_code abortable_service_error = "GATEWAY"
class_code grpc_abortable_status_failure = "GATEWAY"

-- The walk of `issubclass` up the bases, `n` steps at most. No class lies deeper than 2.
climb : ℕ → ErrorClass → ErrorClass → Bool
climb zero c d = class_name c == class_name d
climb (suc n) c d =
    class_name c == class_name d || elim (base c) [ none ↦ false | some b ↦ climb n b d ]

-- `issubclass(c, d)`
unfoldable pub is_subclass : ErrorClass → ErrorClass → Bool
unfolding climb base class_name
is_subclass c d = climb 2 c d

-- `issubclass(c, (d, …))`
unfoldable pub is_subclass_of_any : List ErrorClass → ErrorClass → Bool
unfolding is_subclass
is_subclass_of_any ds c = any (is_subclass c) ds

abbrev pub default_status : ℕ
default_status = 502

-- `STATUS_BY_CODE`
unfoldable pub status_by_code : Dict ℕ
status_by_code =
    ("GATEWAY", 502)
    ∷ ("TRANSPORT", 502)
    ∷ ("PROTOCOL", 502)
    ∷ ("CONFIG", 400)
    ∷ ("PROCESSOR", 500)
    ∷ ("SERIALIZATION", 502)
    ∷ ("XML_UNSAFE", 502)
    ∷ ("PATH", 400)
    ∷ ("CONNECT", 502)
    ∷ ("DNS", 502)
    ∷ ("TLS", 502)
    ∷ ("HOST_KEY", 495)
    ∷ ("TIMEOUT", 504)
    ∷ ("RESPONSE_TOO_LARGE", 502)
    ∷ ("RESPONSE_TOO_DEEP", 502)
    ∷ ("CIRCUIT_OPEN", 503)
    ∷ ("STACK_EXHAUSTED", 502)
    ∷ ("GCS_CAPACITY", 503)
    ∷ ("HTTP_STATUS", 502)
    ∷ ("JSONRPC_ERROR", 502)
    ∷ ("JSONRPC_PROTOCOL", 502)
    ∷ ("GRAPHQL_ERROR", 502)
    ∷ ("GRAPHQL_PROTOCOL", 502)
    ∷ ("S3_STATUS", 502)
    ∷ ("GCS_STATUS", 502)
    ∷ ("GRPC_STATUS", 502)
    ∷ ("FTP_STATUS", 500)
    ∷ ("SFTP_STATUS", 500)
    ∷ ("SOAP_FAULT", 502)
    ∷ []

unfoldable pub warning_codes : List String
warning_codes =
    "HTTP_STATUS" ∷ "JSONRPC_ERROR" ∷ "GRAPHQL_ERROR" ∷ "S3_STATUS" ∷ "GCS_STATUS" ∷ "GRPC_STATUS"
    ∷ "FTP_STATUS" ∷ "SFTP_STATUS" ∷ "SOAP_FAULT" ∷ "CIRCUIT_OPEN" ∷ []

or_default : Option ℕ → ℕ
or_default none = default_status
or_default (some status) = status

-- `status_for(code, override=…)`
unfoldable pub status_for : String → Option ℕ → ℕ
unfolding status_by_code lookup or_default
status_for code (some remote) = remote
status_for code none = or_default (lookup code status_by_code)

-- `AsyncGatewayError.__init__`: the status that an instance carries.
unfoldable pub status_code : ErrorClass → Option ℕ → ℕ
unfolding status_for class_code
status_code c override = status_for (class_code c) override
