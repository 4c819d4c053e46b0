-- ===== src/Gateway/Envelope.antt =====
-- The envelope and its builders (asyncio_gateway/utils/envelope.py).
use async_gateway.Prelude.{
  ℕ, String, Bool, true, false, Option, none, some, List, [], ◌∷◌, Dict, lookup, put, all, has_key,
}
use async_gateway.Prelude.Int.{pos}
use async_gateway.Values.{Value, none_value, bool, int, float, text, list, dict, nil, end, field}
use async_gateway.Values.Floats.{whole}
use async_gateway.Errors.{ErrorClass, class_name, class_code}
use async_gateway.Errors.Chain.{unwrap_cause}
use async_gateway.Gateway.{Host}

-- The keys of `GatewayResponse`.
abbrev pub envelope_keys : List String
envelope_keys =
    "ok" ∷ "status_code" ∷ "protocol" ∷ "url" ∷ "request_time" ∷ "latency" ∷ "payload" ∷ "text"
    ∷ "json" ∷ "headers" ∷ "cookies" ∷ "error" ∷ "protocol_details" ∷ "request_tracer"
    ∷ "pre_processor_response" ∷ "post_processor_response" ∷ []

unfoldable pub is_whole_envelope : Dict Value → Bool
is_whole_envelope env = all (λ k. has_key k env) envelope_keys

-- `new_envelope`; `names` are the caller's further names to redact.
unfoldable pub new_envelope : Host → Option Value → String → String → Value → Dict Value
new_envelope host names url protocol payload =
    ("ok", bool false)
    ∷ ("status_code", int (pos 0))
    ∷ ("protocol", text protocol)
    ∷ ("url", text (host.redact_url names url))
    ∷ ("request_time", text host.utc_now)
    ∷ ("latency", float (whole 0))
    ∷ ("payload", payload)
    ∷ ("text", text "")
    ∷ ("json", none_value)
    ∷ ("headers", dict end)
    ∷ ("cookies", dict end)
    ∷ ("error", none_value)
    ∷ ("protocol_details", dict end)
    ∷ ("request_tracer", list nil)
    ∷ ("pre_processor_response", none_value)
    ∷ ("post_processor_response", none_value)
    ∷ []

abbrev pub redacted : Host → Option Value → Dict Value → Dict Value
redacted host none env = env
redacted host (some payload) env = put "payload" (host.redact_payload payload) env

-- `_seal`: where the payload is gone, its `KeyError` is not modelled; no caller of it removes a key.
unfoldable pub seal : Host → ℕ → Dict Value → Dict Value
seal host status env =
    let timed = put "latency" (float host.elapsed) (put "status_code" (int (pos status)) env) in
    redacted host (lookup "payload" timed) timed

-- `finalise_ok`
unfoldable pub finalise_ok : Host → ℕ → Dict Value → Dict Value
unfolding seal
finalise_ok host status env = seal host status (put "error" none_value (put "ok" (bool true) env))

abbrev pub optional_text : Option String → Value
optional_text none = none_value
optional_text (some s) = text s

-- `GatewayError`, of an error and the message of its causes.
unfoldable pub error_of : ErrorClass → String → Option String → Value
unfolding class_name class_code
error_of class message cause = dict (
    field "type" (text (class_name class)) (
      field "code" (text (class_code class))
        (field "message" (text message) (field "cause" (optional_text cause) end))))

-- `finalise_error`, of an error with its status and its object.
unfoldable pub finalise_error : Host → Option Value → ErrorClass → ℕ → ℕ → Dict Value → Dict Value
unfolding seal
finalise_error host names class status id env =
    let (message, cause) = unwrap_cause (host.redact_text names) host.store id host.max_depth in
    seal host status (put "error" (error_of class message cause) (put "ok" (bool false) env))
