-- ===== src/Http/Client.antt =====
-- `HttpRequest.__init__` (asyncio_gateway/logic/http_client.py), from where the base class has set the
-- options, the URL, the auth and the timeout.
pub mod Guarded
pub mod Secrets
use async_gateway.Prelude.{ℕ, String, Bool, true, Option, List, Dict}
use async_gateway.Prelude.Int.{pos}
use async_gateway.Values.{Value, bool, int, text, list, dict, cons, nil, end, Result, ok, ◌>>=◌}
use async_gateway.Values.Floats.{Float}
use async_gateway.Http.{Language, Tracer, Session, Given, value, option, option_or}
use async_gateway.Http.Headers.{
  validated_headers, validated_cookies, validated_cross_origin_headers,
}
use async_gateway.Http.Sessions.{validated_session, validated_serialization, validated_trace_config}
use async_gateway.Http.Limits.{
  validated_request_type, validated_http_auth, validated_upload_config, validated_download_config,
  validated_timeout, validated_max_response_bytes, validated_allow_redirects,
  validated_max_redirects, validated_allowed_schemes,
}

pub record HttpRequest : Type 0 where
  pub request_type : String
  pub auth : Option ℕ
  pub cookies : Option (Dict String)
  pub headers : Dict String
  pub verify_ssl : Given
  pub http_file_upload_config : Given
  pub file_download_config : Option (List (Value × Value))
  pub timeout : Float
  pub cross_origin_forward : List String
  pub session : Option Session
  pub serialization : Option Value
  pub trace_config : List Tracer
  pub max_response_bytes : ℕ
  pub allow_redirects : Bool
  pub max_redirects : ℕ
  pub allowed_schemes : List String

abbrev pub max_response_bytes : ℕ
max_response_bytes = 67108864

abbrev pub max_redirects : ℕ
max_redirects = 10

abbrev pub allowed_schemes : Given
allowed_schemes = value (list (cons (text "http") (cons (text "https") nil)))

-- The checks run in the order of the source, and the first refusal ends the construction.
unfoldable pub new_http_request :
    Language → Tracer → Dict Given → String → Given → Given → Result HttpRequest
new_http_request l built_in info url given_auth given_timeout = do
  request_type ← validated_request_type l (option "request_type" info)
  auth ← validated_http_auth l given_auth url
  cookies ← validated_cookies l (option "cookies" info)
  headers ← validated_headers l "headers" (option "headers" info)
  upload ←
      validated_upload_config l (option_or "http_file_upload_config" (value (dict end)) info)
        request_type
  download ← validated_download_config (option "http_file_download_config" info)
  timeout ← validated_timeout given_timeout
  forward ← validated_cross_origin_headers l (option "cross_origin_headers" info)
  session ← validated_session l (option "session" info) forward
  serialization ← validated_serialization l info session
  trace_config ← validated_trace_config built_in info session
  bytes ←
      validated_max_response_bytes
        (option_or "max_response_bytes" (value (int (pos max_response_bytes))) info)
  allow ← validated_allow_redirects (option_or "allow_redirects" (value (bool true)) info)
  redirects ←
      validated_max_redirects (option_or "max_redirects" (value (int (pos max_redirects))) info)
  schemes ← validated_allowed_schemes l (option_or "allowed_schemes" allowed_schemes info)
  ok (record {
    request_type = request_type;
    auth = auth;
    cookies = cookies;
    headers = headers;
    verify_ssl = option_or "verify_ssl" (value (bool true)) info;
    http_file_upload_config = upload;
    file_download_config = download;
    timeout = timeout;
    cross_origin_forward = forward;
    session = session;
    serialization = serialization;
    trace_config = trace_config;
    max_response_bytes = bytes;
    allow_redirects = allow;
    max_redirects = redirects;
    allowed_schemes = schemes;
  })
