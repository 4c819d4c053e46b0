-- ===== src/Http/Exchange.antt =====
-- What the HTTP client makes of the end of the breaker's `run`: `transport_error_for`, `_exchange`,
-- `_response_error` and `_copy_into_envelope` of asyncio_gateway/logic/http_client.py, with
-- `application_json_response` of asyncio_gateway/helpers/internal/response_helper.py.
-- Which classes of aiohttp an exception object is an instance of, and `orjson.loads`, are parameters.
pub mod Typed
pub mod Honest
use async_gateway.Prelude.{
  ℕ, String, Bool, true, false, Option, none, some, List, [], ◌∷◌, ◌==◌, Dict, put, map, any,
  if◌then◌else◌,
}
use async_gateway.Prelude.Int.{pos}
use async_gateway.Values.{Value, none_value, int, text, dict, Fields, end, field}
use async_gateway.Errors.{
  ErrorClass, gateway_timeout_error, tls_error, dns_error, connect_error, transport_error,
  circuit_open_error,
}
use async_gateway.Breaker.Failures.{Failure, gateway, foreign}
use async_gateway.Breaker.Attempt.{Outcome, returned, circuit_open, retries_exhausted, raised}
use async_gateway.Filters.{Codec, media_type_of, is_json_media_type}
use async_gateway.Redaction.{redact_headers, redact_cookies}
use async_gateway.Gateway.{Host}
use async_gateway.Gateway.Envelope.{finalise_ok}
use async_gateway.JsonRpc.{http_response_error}

-- The classes that the table names.
pub data Family : Type 0 where
  asyncio_timeout builtin_timeout client_ssl ssl connector_dns client_connection client : Family

abbrev pub transport_errors : List (Family × ErrorClass)
transport_errors =
    (asyncio_timeout, gateway_timeout_error)
    ∷ (builtin_timeout, gateway_timeout_error)
    ∷ (client_ssl, tls_error)
    ∷ (ssl, tls_error)
    ∷ (connector_dns, dns_error)
    ∷ (client_connection, connect_error)
    ∷ (client, transport_error)
    ∷ []

-- `faults_of`
abbrev pub faults_of : List (Family × ErrorClass) → List Family
faults_of table = map (λ row. row.0) table

-- The first row whose family the object is an instance of.
unfoldable pub classified : (Family → Bool) → List (Family × ErrorClass) → Option ErrorClass
classified is_instance [] = none
classified is_instance ((family, class) ∷ rows) =
    let later = classified is_instance rows in if is_instance family then some class else later

-- What leaves `handle_request`: a new error of the package, or an exception object as it is.
pub data Thrown : Type 0 where
  typed : ErrorClass → (status : Option ℕ) → Thrown
  as_is : Failure → Thrown

abbrev pub reclassified : Failure → Option ErrorClass → Thrown
reclassified cause none = as_is cause
reclassified cause (some class) = typed class none

-- `transport_error_for`, of a cause; no class of the package is one of the table's.
unfoldable pub transport_error_for : (ℕ → Family → Bool) → Option Failure → Thrown
unfolding classified
transport_error_for is_instance none = typed transport_error none
transport_error_for is_instance (some (gateway class id)) = as_is (gateway class id)
transport_error_for is_instance (some (foreign families id)) =
    reclassified (foreign families id) (classified (is_instance id) transport_errors)

-- `except TRANSPORT_FAULTS`
unfoldable pub is_transport_fault : (ℕ → Family → Bool) → Failure → Bool
is_transport_fault is_instance (gateway class id) = false
is_transport_fault is_instance (foreign families id) =
    any (is_instance id) (faults_of transport_errors)

pub record HttpResult : Type 0 where
  pub status_code : ℕ
  pub headers : Dict String
  pub cookies : Dict String
  pub text_ : String
  pub decode_error : Option String

pub record Decoder : Type 0 where
  pub codec : Codec
  pub casefold : String → String
  -- `orjson.loads`, where `none` is its `JSONDecodeError`
  pub loads : String → Option Value

abbrev pub as_fields : Dict String → Fields
as_fields [] = end
as_fields ((name, value) ∷ rest) = field name (text value) (as_fields rest)

-- `application_json_response`; `none` is the `SerializationError`.
unfoldable pub application_json_response : Decoder → String → Option Value
application_json_response d response = if response == "" then some none_value else d.loads response

abbrev pub with_json : Option Value → Dict Value → Dict Value × Bool
with_json none env = (env, true)
with_json (some body) env = (put "json" body env, false)

-- The keys that every response fills.
unfoldable pub filled : Decoder → HttpResult → Dict Value → Dict Value
filled d r env = put "text" (text r.text_) (
    put "cookies" (dict (as_fields (redact_cookies r.cookies))) (
      put "headers" (dict (as_fields (redact_headers d.casefold r.headers)))
        (put "status_code" (int (pos r.status_code)) env)))

-- `_copy_into_envelope`: the envelope, and whether the body could not be read.
unfoldable pub copy_into_envelope : Decoder → HttpResult → Dict Value → Dict Value × Bool
unfolding filled application_json_response
copy_into_envelope d r env = elim r.decode_error [
  | some message ↦ (filled d r env, true)
  | none ↦
      if is_json_media_type d.codec (media_type_of d.codec r.headers)
      then with_json (application_json_response d r.text_) (filled d r env)
      else (filled d r env, false)
]

pub record Exchanged : Type 0 where
  pub envelope : Dict Value
  pub thrown : Option Thrown

-- After the copy: an error, or the finalised envelope.
abbrev pub concluded : Host → ℕ → Dict Value → Option (ErrorClass × Option ℕ) → Exchanged
concluded host status env none = record { envelope = finalise_ok host status env; thrown = none }
concluded host status env (some (class, code)) = record {
  envelope = env;
  thrown = some (typed class code);
}

unfoldable pub answered : Host → Decoder → HttpResult → Dict Value → Exchanged
unfolding copy_into_envelope http_response_error finalise_ok
answered host d r env =
    let (copied, malformed) = copy_into_envelope d r env in
    concluded host r.status_code copied (http_response_error r.status_code malformed)

-- `_exchange`, from the end of `handle_http_request`.
unfoldable pub exchange :
    Host → Decoder → (ℕ → Family → Bool) → Dict Value → Outcome HttpResult → Exchanged
unfolding answered transport_error_for is_transport_fault
exchange host d is_instance env (returned r) = answered host d r env
exchange host d is_instance env (circuit_open recent) = record {
  envelope = env;
  thrown = some (typed circuit_open_error none);
}
exchange host d is_instance env (retries_exhausted cause) = record {
  envelope = env;
  thrown = some (transport_error_for is_instance (some cause));
}
exchange host d is_instance env (raised e) =
    if is_transport_fault is_instance e
    then record { envelope = env; thrown = some (transport_error_for is_instance (some e)) }
    else record { envelope = env; thrown = some (as_is e) }
