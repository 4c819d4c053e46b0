-- ===== src/Redaction.antt =====
-- The masking of values by the names of their keys (asyncio_gateway/utils/redaction.py).
-- The folding of a name, which types of objects are credentials and the masking of texts by patterns are
-- parameters. The keys of a value are texts.
pub mod Masked
use async_gateway.Prelude.{
  ℕ, zero, suc, String, Bool, true, false, List, [], ◌∷◌, Dict, if◌then◌else◌, contains, ◌++◌,
}
use async_gateway.Values.{
  Value, none_value, bool, int, float, text, bytes, list, dict, function, exception_class, object,
  Values, nil, cons, Fields, end, field,
}

abbrev pub redacted : String
redacted = "***redacted***"

abbrev pub sensitive_headers : List String
sensitive_headers =
    "authorization" ∷ "proxy-authorization" ∷ "cookie" ∷ "set-cookie" ∷ "x-api-key" ∷ []

abbrev pub sensitive_names : List String
sensitive_names =
    "api_key" ∷ "apikey" ∷ "access_token" ∷ "refresh_token" ∷ "token" ∷ "secret" ∷ "password"
    ∷ "passwd" ∷ "signature" ∷ "sig" ∷ "key" ∷ "auth" ∷ []

abbrev pub all_sensitive_names : List String
all_sensitive_names = sensitive_names ++ sensitive_headers

-- `name.casefold() in names`
abbrev pub among : (String → String) → List String → String → Bool
among casefold names name = contains names (casefold name)

abbrev pub payload_redaction_depth : ℕ
payload_redaction_depth = 4

-- `_redact_recursive`: the test on credentials objects comes before the one on the depth.
unfoldable mutual
  pub redact_recursive : (String → Bool) → (String → Bool) → ℕ → Value → Value
  redact_recursive is_auth sensitive depth (object name) =
      if is_auth name then text redacted else object name
  redact_recursive is_auth sensitive (suc depth) (dict fs) =
      dict (redact_fields is_auth sensitive depth fs)
  redact_recursive is_auth sensitive (suc depth) (list vs) =
      list (redact_items is_auth sensitive depth vs)
  redact_recursive is_auth sensitive depth v = v

  pub redact_fields : (String → Bool) → (String → Bool) → ℕ → Fields → Fields
  redact_fields is_auth sensitive depth end = end
  redact_fields is_auth sensitive depth (field k v fs) =
      let item = redact_recursive is_auth sensitive depth v in
      field k (if sensitive k then text redacted else item)
        (redact_fields is_auth sensitive depth fs)

  pub redact_items : (String → Bool) → (String → Bool) → ℕ → Values → Values
  redact_items is_auth sensitive depth nil = nil
  redact_items is_auth sensitive depth (cons v vs) =
      cons (redact_recursive is_auth sensitive depth v) (redact_items is_auth sensitive depth vs)

-- `redact_payload`, at its default depth.
unfoldable pub redact_payload : (String → Bool) → (String → String) → Value → Value
redact_payload is_auth casefold payload =
    redact_recursive is_auth (among casefold sensitive_names) payload_redaction_depth payload

-- `redact_value`; `mask` is `redact_text` and then `redact_url`.
unfoldable pub redact_value :
    (String → Bool) → (String → String) → (String → String) → Value → Value
redact_value is_auth casefold mask (object name) =
    if is_auth name
    then text redacted
    else redact_recursive is_auth (among casefold all_sensitive_names) payload_redaction_depth
        (object name)
redact_value is_auth casefold mask (text s) = text (mask s)
redact_value is_auth casefold mask v =
    redact_recursive is_auth (among casefold all_sensitive_names) payload_redaction_depth v

unfoldable pub redact_headers : (String → String) → Dict String → Dict String
redact_headers casefold [] = []
redact_headers casefold ((name, value) ∷ headers) =
    (name, if among casefold sensitive_headers name then redacted else value)
    ∷ redact_headers casefold headers

unfoldable pub redact_cookies : Dict String → Dict String
redact_cookies [] = []
redact_cookies ((name, value) ∷ cookies) = (name, redacted) ∷ redact_cookies cookies
