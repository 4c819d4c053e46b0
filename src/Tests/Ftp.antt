-- ===== src/Tests/Ftp.antt =====
-- asyncio_gateway/logic/ftp_client.py at concrete options and servers.
use async_gateway.Values.{truthy}
use async_gateway.Prelude.{lookup}
use async_gateway.Http.Limits.{validated_max_response_bytes}
use async_gateway.Prelude.{◌≡◌, refl, true, false, none, some, [], ◌∷◌, Dict}
use async_gateway.Prelude.Int.{pos}
use async_gateway.Values.{Value, bool, int, text, none_value, ok, err, excluded, missing}
use async_gateway.Errors.{ftp_status_error}
use async_gateway.Tests.Redirects.{plain}
use async_gateway.Ftp.{FtpRequest, explicit, agreed_tls, credentials_of, new_ftp_request}
use async_gateway.Ftp.Failures.{status_code_error, exhausted, typed, cancelled, thrown_for}
use async_gateway.Ftp.Sessions.{
  World, Context, unreadable, got, one_path, operated, dialled, upgraded, logged_in, worked, quit,
  handle_request,
}
use async_gateway.Ftp.Sessions.Secured.{IsSafe, handle_request-IsSafe}

abbrev options : Dict Value
options =
    ("command", text "remove") ∷ ("server_path", text "/r") ∷ ("tls_mode", text "explicit") ∷ []

abbrev made : FtpRequest
made = record {
  host = "h";
  user = "u";
  password = "p";
  port = int (pos 21);
  command_ = text "remove";
  server_path = text "/r";
  client_path = none_value;
  overwrite = false;
  max_response_bytes = 67108864;
  verify_ssl = bool true;
  certificate = none;
  tls_mode = some explicit;
  effective = explicit;
}

constructed : new_ftp_request options "h" none (text "u") (text "p") ≡ ok made
unfolding new_ftp_request validated_max_response_bytes lookup
constructed = refl

unverified_mode_refused : agreed_tls (some explicit) (bool false) none ≡ err (excluded "tls_mode")
unfolding agreed_tls
unverified_mode_refused = refl

no_password_refused : credentials_of (text "u") none_value ≡ err (missing "auth")
unfolding credentials_of
no_password_refused = refl

abbrev system : Context
system = record { id = 0; verifies = true }

abbrev server : World
server = record {
  default_context = system;
  is_empty = λ certificate. false;
  build_context = λ certificate. unreadable;
  connect = none;
  upgrade = none;
  login = none;
  enter = none;
  leave = none;
  offers = λ name. true;
  run = λ operation. none;
  stat = λ path. got none_value;
  being_cancelled = false;
}

removed :
    (handle_request plain made server).0
    ≡ dialled
      ∷ upgraded system
      ∷ logged_in
      ∷ worked (operated (one_path "remove" "/r") ∷ [])
      ∷ quit
      ∷ []
unfolding handle_request truthy
removed = refl

handle_request-IsSafe_example : IsSafe made (handle_request plain made server).0
handle_request-IsSafe_example =
    handle_request-IsSafe options "h" none (text "u") (text "p") made plain server constructed refl

first_code :
    thrown_for false (exhausted (status_code_error (none ∷ some 550 ∷ [])))
    ≡ typed ftp_status_error (some 550)
unfolding thrown_for
first_code = refl

cancellation_wins : thrown_for true (exhausted (status_code_error [])) ≡ cancelled
unfolding thrown_for
cancellation_wins = refl
