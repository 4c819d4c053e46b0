-- ===== src/Tests/Http.antt =====
-- asyncio_gateway/logic/http_client.py at concrete options, responses and failures.
use async_gateway.Http.Limits.{validated_allowed_schemes}
use async_gateway.Http.Limits.{validated_max_redirects}
use async_gateway.Http.Limits.{validated_allow_redirects}
use async_gateway.Http.Limits.{validated_max_response_bytes}
use async_gateway.Http.Exchange.{is_transport_fault}
use async_gateway.Http.Sessions.{validated_trace_config}
use async_gateway.Prelude.{has_key}
use async_gateway.Http.Sessions.{validated_serialization}
use async_gateway.Http.Limits.{validated_download_config}
use async_gateway.Values.{truthy}
use async_gateway.Http.Limits.{validated_upload_config}
use async_gateway.Http.Headers.{validated_cookies}
use async_gateway.Http.Limits.{is_unsupported}
use async_gateway.Http.Limits.{validated_request_type}
use async_gateway.Breaker.{record_failure}
use async_gateway.Breaker.Attempt.{should_retry}
use async_gateway.Breaker.Failures.{is_default_abortable}
use async_gateway.Breaker.Attempt.{should_abort}
use async_gateway.Breaker.Failures.{is_caught}
use async_gateway.Breaker.{allows_execution}
use async_gateway.Redirects.Collectors.{measure_redirect}
use async_gateway.Redirects.Collectors.{record_redirect}
use async_gateway.Redirects.{cross_origin_headers}
use async_gateway.Redirects.{after_redirect}
use async_gateway.Redirects.{same_origin}
use async_gateway.Redirects.{redirect_target}
use async_gateway.Redirects.{hop_deadline}
use async_gateway.Redirects.{resolve_verb}
use async_gateway.Redirects.Chain.{pass}
use async_gateway.Prelude.{
  ℕ, ◌≡◌, refl, String, Bool, true, false, none, some, List, [], ◌∷◌, ◌==◌, ◌&&◌, eqb, Dict, All,
  lookup, if◌then◌else◌,
}
use async_gateway.Prelude.Int.{pos}
use async_gateway.Values.{
  Value, bool, text, int, float, dict, end, field, ok, err, credential, bad_character, excluded,
}
use async_gateway.Values.Floats.{whole, nan}
use async_gateway.Errors.{dns_error}
use async_gateway.Breaker.{Breaker, new_breaker}
use async_gateway.Breaker.Failures.{Failure, foreign, client_error}
use async_gateway.Breaker.Attempt.{Outcome, retries_exhausted, failed}
use async_gateway.Breaker.Run.{run}
use async_gateway.Breaker.Run as Run
use async_gateway.Breaker.Run.Raised.{IsPlain}
use async_gateway.Redirects.{done}
use async_gateway.Redirects.Chain.{Call, Ended, make_http_request}
use async_gateway.Tests.Redirects.{
  plain, hosts, offers_all, read_id, fetch, turns, first_request, last_request,
}
use async_gateway.Tests.Gateway.{host}
use async_gateway.Tests.Filters.{codec}
use async_gateway.Http.{
  Language, returns_text, Tracer, Session, Given, value, collection, session, basic_auth,
}
use async_gateway.Http as Options
use async_gateway.Http.Headers.{validated_headers, validated_cross_origin_headers}
use async_gateway.Http.Sessions.{validated_session}
use async_gateway.Http.Limits.{validated_timeout, validated_http_auth}
use async_gateway.Http.Client.{HttpRequest, new_http_request}
use async_gateway.Http.Client.Guarded.{IsGuarded, new_http_request-IsGuarded}
use async_gateway.Http.Client.Secrets.{
  KeepsSecrets, HarmlessDefaults, new_http_request-KeepsSecrets,
}
use async_gateway.Http.Exchange.{
  Family, connector_dns, client_connection, client, HttpResult, Decoder, exchange, typed,
}
use async_gateway.Http.Exchange.Typed.{all_typed, exchange-is_typed}

-- Texts have no code points but two, of which one is a line feed and one an `@`.
abbrev points : String → List ℕ
points s = if s == "a\nb" then b'a' ∷ 10 ∷ b'b' ∷ [] else if s == "me@a" then b'@' ∷ [] else []

abbrev language : Language
language = record {
  texts = plain;
  urls = hosts;
  code_points = points;
  probe = λ serializer. returns_text;
}

abbrev built_in : Tracer
built_in = record { id = 0; collector = some 0 }

abbrev open_session : Session
open_session = record {
  closed = false;
  headers = "accept" ∷ "x-request-id" ∷ [];
  auth = none;
  trace_configs = [];
}

abbrev options : Dict Given
options =
    ("request_type", value (text "get"))
    ∷ ("cross_origin_headers", collection (Options.plain (text "x-request-id") ∷ []))
    ∷ ("session", session open_session)
    ∷ []

abbrev built : HttpRequest
built = record {
  request_type = "get";
  auth = some 2;
  cookies = none;
  headers = [];
  verify_ssl = value (bool true);
  http_file_upload_config = value (dict end);
  file_download_config = none;
  timeout = whole 30;
  cross_origin_forward = "x-request-id" ∷ [];
  session = some open_session;
  serialization = none;
  trace_config = [];
  max_response_bytes = 67108864;
  allow_redirects = true;
  max_redirects = 10;
  allowed_schemes = "http" ∷ "https" ∷ [];
}

constructed :
    new_http_request language built_in options "a" (basic_auth 2) (value (int (pos 30))) ≡ ok built
unfolding new_http_request validated_request_type lookup is_unsupported validated_http_auth
    validated_cookies validated_headers validated_upload_config truthy validated_download_config
    validated_timeout validated_cross_origin_headers validated_session validated_serialization
    has_key validated_trace_config validated_max_response_bytes validated_allow_redirects
    validated_max_redirects validated_allowed_schemes
constructed = refl

line_feed_refused :
    validated_headers language "headers" (value (dict (field "x" (text "a\nb") end)))
    ≡ err (bad_character "headers")
unfolding validated_headers
line_feed_refused = refl

credential_refused :
    validated_cross_origin_headers language (collection (Options.plain (text "authorization") ∷ []))
    ≡ err (credential "cross_origin_headers")
unfolding validated_cross_origin_headers
credential_refused = refl

session_default_refused :
    validated_session language (session (record open_session { headers = "x-vault-token" ∷ [] })) []
    ≡ err (credential "session")
unfolding validated_session
session_default_refused = refl

two_credentials_refused : validated_http_auth language (basic_auth 1) "me@a" ≡ err (excluded "auth")
unfolding validated_http_auth
two_credentials_refused = refl

-- A timeout that is no number passes.
nan_timeout : validated_timeout (value (float nan)) ≡ ok nan
unfolding validated_timeout
nan_timeout = refl

new_http_request-IsGuarded_example : IsGuarded language built
new_http_request-IsGuarded_example =
    new_http_request-IsGuarded language built_in options "a" (basic_auth 2) (value (int (pos 30)))
      built constructed

abbrev sending : Call
sending = record fetch {
  headers = some (("x-request-id", "r") ∷ ("x-api-key", "secret") ∷ []);
  cross_origin_forward = "x-request-id" ∷ [];
}

abbrev crossed : Ended ℕ
crossed = record {
  requests =
      record first_request { headers = some (("x-request-id", "r") ∷ ("x-api-key", "secret") ∷ []) }
      ∷ record last_request { headers = some (("x-request-id", "r") ∷ []) }
      ∷ [];
  collectors = [];
  outcome = done 7;
}

sent_on : make_http_request plain hosts offers_all read_id sending 0 turns [] [] 4 ≡ some crossed
unfolding make_http_request pass resolve_verb hop_deadline redirect_target same_origin
    after_redirect cross_origin_headers record_redirect measure_redirect
sent_on = refl

new_http_request-KeepsSecrets_example :
    All (KeepsSecrets language offers_all read_id sending) crossed.requests
    × HarmlessDefaults plain (some open_session)
new_http_request-KeepsSecrets_example =
    new_http_request-KeepsSecrets language offers_all read_id sending built_in options "a"
      (basic_auth 2) (value (int (pos 30))) built 0 turns [] [] 4 crossed constructed refl sent_on

-- The object 3 is a failed name lookup, which is a connection error of aiohttp as well.
abbrev is_lookup : Family → Bool
is_lookup connector_dns = true
is_lookup client_connection = true
is_lookup client = true
is_lookup _ = false

abbrev instances : ℕ → Family → Bool
instances id family = eqb id 3 && is_lookup family

abbrev unresolved : Failure
unresolved = foreign (client_error ∷ []) 3

abbrev failing : ℕ → Run.Turn HttpResult
failing n = record { entered = n; reply = failed unresolved; settled = n }

abbrev breaker : Breaker
breaker = new_breaker 5 (whole 60) none none none none

abbrev gave_up : Outcome HttpResult
gave_up = retries_exhausted unresolved

breaker_IsPlain : IsPlain none breaker
breaker_IsPlain = record {
  same_policy = refl;
  no_exhausted = refl;
  no_failed = refl;
  no_abort = refl;
}

run-failing : run failing 20 breaker ≡ some (gave_up, record breaker { failures = 1 }, 1)
unfolding run allows_execution is_caught should_abort is_default_abortable should_retry
    record_failure
run-failing = refl

abbrev decoder : Decoder
decoder = record { codec = codec; casefold = λ s. s; loads = λ s. none }

abbrev envelope : Dict Value
envelope = ("ok", bool false) ∷ ("text", text "") ∷ []

first_row_wins :
    (exchange host decoder instances envelope gave_up).thrown ≡ some (typed dns_error none)
unfolding exchange
first_row_wins = refl

exchange-is_typed_example :
    all_typed (exchange host decoder instances envelope gave_up).thrown ≡ true
unfolding is_transport_fault
exchange-is_typed_example =
    exchange-is_typed instances host decoder envelope failing 20 breaker
      (record breaker { failures = 1 }) gave_up 1 (λ m. refl) breaker_IsPlain run-failing

abbrev teapot : HttpResult
teapot = record {
  status_code = 418;
  headers = ("content-type", "application/json") ∷ ("set-cookie", "s=1") ∷ [];
  cookies = ("s", "1") ∷ [];
  text_ = "{";
  decode_error = none;
}
