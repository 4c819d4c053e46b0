-- ===== src/Tests/Redaction.antt =====
-- The masking of values of asyncio_gateway/utils/redaction.py at a concrete payload.
use async_gateway.Redaction.{redact_recursive}
use async_gateway.Prelude.{String, Bool, true, ◌≡◌, refl, ◌==◌, [], ◌∷◌}
use async_gateway.Values.{Value, text, dict, list, object, cons, nil, field, end}
use async_gateway.Redaction.{
  redact_payload, redact_headers, redact_value, redacted, payload_redaction_depth, among,
  sensitive_names,
}
use async_gateway.Redaction.Masked.{masked, redact_payload-masked}

abbrev is_basic_auth : String → Bool
is_basic_auth name = name == "BasicAuth"

abbrev payload : Value
payload = dict (
    field "user" (text "ann") (
      field "password" (text "hunter2") (
        field "calls"
          (list (cons (object "BasicAuth") (cons (dict (field "token" (dict end) end)) nil))) end)))

masked_payload :
    redact_payload is_basic_auth (λ s. s) payload
    ≡ dict (
        field "user" (text "ann") (
          field "password" (text redacted) (
            field "calls"
              (list (cons (text redacted) (cons (dict (field "token" (text redacted) end)) nil)))
              end)))
unfolding redact_payload redact_recursive
masked_payload = refl

bare_credentials : redact_value is_basic_auth (λ s. s) (λ s. s) (object "BasicAuth") ≡ text redacted
unfolding redact_value
bare_credentials = refl

masked_headers :
    redact_headers (λ s. s) (("cookie", "a=b") ∷ ("accept", "text/html") ∷ [])
    ≡ (("cookie", redacted) ∷ ("accept", "text/html") ∷ [])
unfolding redact_headers
masked_headers = refl

redact_payload-masked_example :
    masked is_basic_auth
        (among (λ s. s) sensitive_names)
        payload_redaction_depth
        (redact_payload is_basic_auth (λ s. s) payload)
      ≡ true
    × redact_payload is_basic_auth (λ s. s) (redact_payload is_basic_auth (λ s. s) payload)
      ≡ redact_payload is_basic_auth (λ s. s) payload
redact_payload-masked_example = redact_payload-masked is_basic_auth (λ s. s) payload

abbrev masked_already : Value
masked_already = dict (field "user" (text "ann") (field "token" (text redacted) end))
