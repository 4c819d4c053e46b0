-- ===== src/JsonRpc.antt =====
-- The JSON-RPC adapter (asyncio_gateway/logic/jsonrpc_client.py), with the HTTP client's own choice of
-- an error (`HttpRequest._response_error` of asyncio_gateway/logic/http_client.py).
-- The JSON encoder and the reading of a media type are parameters.
pub mod Answers
pub mod Headers
use async_gateway.Prelude.{
  starts_with, ℕ, ◌-◌, ◌^◌, String, Bool, true, false, not, ◌&&◌, ◌||◌, Option, none, some, List,
  [], ◌∷◌, ◌++◌, ◌==◌, Dict, lookup, has_key, put, leb, if◌then◌else◌,
}
use async_gateway.Prelude.Int.{ℤ, pos, negsuc, leb_ℤ, eqb_ℤ}
use async_gateway.Values.{
  Value, none_value, int, text, list, dict, Values, items, Fields, fields, Result, ok, err,
  wrong_type, below_minimum, reserved_name, data_refused, bad_encoding,
}
use async_gateway.Values.Texts.{Texts}
use async_gateway.Errors.{
  ErrorClass, http_status_error, serialization_error, json_rpc_error, json_rpc_protocol_error,
}

-- `validated_jsonrpc_method`
unfoldable pub validated_jsonrpc_method : Texts → Value → Result String
validated_jsonrpc_method t (text s) =
    if t.strip s == ""
    then err (wrong_type "method")
    else if starts_with s "rpc."
    then err (reserved_name "method")
    else ok s
validated_jsonrpc_method t _ = err (wrong_type "method")

min_jsonrpc_integer : ℤ
min_jsonrpc_integer = negsuc (2 ^ 63 - 1)

max_jsonrpc_integer : ℤ
max_jsonrpc_integer = pos (2 ^ 64 - 1)

unfoldable pub fits_the_wire : ℤ → Bool
unfolding min_jsonrpc_integer max_jsonrpc_integer
fits_the_wire n = leb_ℤ min_jsonrpc_integer n && leb_ℤ n max_jsonrpc_integer

-- `validated_jsonrpc_id`
unfoldable pub validated_jsonrpc_id : Value → Result Value
unfolding fits_the_wire
validated_jsonrpc_id (text s) = ok (text s)
validated_jsonrpc_id (int n) =
    if fits_the_wire n then ok (int n) else err (below_minimum "request_id")
validated_jsonrpc_id _ = err (wrong_type "request_id")

-- `validated_jsonrpc_params`; `none` omits them.
unfoldable pub validated_jsonrpc_params : Value → Result (Option Value)
validated_jsonrpc_params none_value = ok none
validated_jsonrpc_params (dict fs) = ok (some (dict fs))
validated_jsonrpc_params (list vs) = ok (some (list vs))
validated_jsonrpc_params _ = err data_refused

abbrev pub with_params : Option Value → Dict Value
with_params none = []
with_params (some params) = ("params", params) ∷ []

-- `build_jsonrpc_request`; `encodes` is that the encoder accepts the body.
unfoldable pub build_jsonrpc_request :
    (Dict Value → Bool) → String → Value → Option Value → Result (Dict Value)
build_jsonrpc_request encodes method request_id params =
    let body =
      ("jsonrpc", text "2.0") ∷ ("method", text method) ∷ ("id", request_id) ∷ with_params params in
    if encodes body then ok body else err bad_encoding

abbrev pub keeping : String × String → Result (Dict String) → Result (Dict String)
keeping header (ok checked) = ok (header ∷ checked)
keeping header (err e) = err e

-- The headers other than the content type, whose every occurrence must be JSON.
unfoldable pub checked_headers : Texts → (String → String) → Dict String → Result (Dict String)
checked_headers t media_type [] = ok []
checked_headers t media_type ((name, value) ∷ headers) =
    let rest = checked_headers t media_type headers in
    if t.lower name == "content-type"
    then (if media_type value == "application/json" then rest else err (wrong_type "headers"))
    else keeping (name, value) rest

abbrev pub typed : Result (Dict String) → Result (Dict String)
typed (ok checked) = ok (put "Content-Type" "application/json" checked)
typed (err e) = err e

-- `canonical_jsonrpc_headers`
unfoldable pub canonical_jsonrpc_headers :
    Texts → (String → String) → Dict String → Result (Dict String)
unfolding checked_headers
canonical_jsonrpc_headers t media_type headers = typed (checked_headers t media_type headers)

-- What a peer's answer is: its details and whether they are an error, or no JSON-RPC response.
pub data Answer : Type 0 where
  accepted : (details : Dict Value) → (is_error : Bool) → Answer
  protocol_error : Answer

abbrev pub is_text : String → Option Value → Bool
is_text s (some (text r)) = r == s
is_text s _ = false

-- `type(peer_id) is type(expected_id) and peer_id == expected_id`, of an id that was validated.
abbrev pub same_id : Value → Value → Bool
same_id (text a) (text b) = a == b
same_id (int a) (int b) = eqb_ℤ a b
same_id _ _ = false

abbrev pub is_code : Option Value → Bool
is_code (some (int n)) = fits_the_wire n
is_code _ = false

abbrev pub is_message : Option Value → Bool
is_message (some (text s)) = true
is_message _ = false

abbrev pub error_answer : Value → Value → Answer
error_answer peer_id (dict fs) =
    if is_code (lookup "code" (fields fs)) && is_message (lookup "message" (fields fs))
    then accepted (("id", peer_id) ∷ ("error", dict fs) ∷ []) true
    else protocol_error
error_answer peer_id _ = protocol_error

abbrev pub chosen : Value → Option Value → Option Value → Answer
chosen peer_id none none = protocol_error
chosen peer_id (some result) (some error) = protocol_error
chosen peer_id (some result) none = accepted (("id", peer_id) ∷ ("result", result) ∷ []) false
chosen peer_id none (some error) = error_answer peer_id error

abbrev pub identified : Dict Value → Value → Option Value → Answer
identified body expected none = protocol_error
identified body expected (some peer_id) =
    if same_id peer_id expected
    then chosen peer_id (lookup "result" body) (lookup "error" body)
    else protocol_error

-- `validated_jsonrpc_response`
unfoldable pub validated_jsonrpc_response : Value → Value → Answer
unfolding fits_the_wire
validated_jsonrpc_response (dict fs) expected =
    if is_text "2.0" (lookup "jsonrpc" (fields fs))
    then identified (fields fs) expected (lookup "id" (fields fs))
    else protocol_error
validated_jsonrpc_response _ expected = protocol_error

-- An error's class and the status that it is given.
abbrev pub Fault : Type 0
Fault = ErrorClass × Option ℕ

-- `HttpRequest._response_error`; `malformed` is that the body could not be decoded.
unfoldable pub http_response_error : ℕ → Bool → Option Fault
http_response_error status malformed =
    if leb 400 status
    then some (http_status_error, some status)
    else if malformed
    then some (serialization_error, none)
    else none

abbrev pub answered : ℕ → Answer → Option Fault × Option (Dict Value)
answered status protocol_error = (
  if leb 400 status then http_response_error status false else some (json_rpc_protocol_error, none),
  none,
)
answered status (accepted details is_error) = (
  if is_error
      then some (json_rpc_error, some status)
      else if leb 400 status
      then http_response_error status false
      else none,
  some details,
)

-- `JsonRpcRequest._response_error`, and the details that it puts into the envelope.
unfoldable pub response_error : ℕ → Bool → Value → Value → Option Fault × Option (Dict Value)
unfolding http_response_error validated_jsonrpc_response
response_error status true body expected = (
  if leb 400 status then http_response_error status true else some (json_rpc_protocol_error, none),
  none,
)
response_error status false body expected =
    answered status (validated_jsonrpc_response body expected)
