-- ===== src/Tests/Sftp.antt =====
-- asyncio_gateway/logic/sftp_client.py at concrete options and servers.
use async_gateway.Prelude.{has_key}
use async_gateway.Prelude.{lookup}
use async_gateway.Http.Limits.{validated_max_response_bytes}
use async_gateway.Prelude.{◌≡◌, refl, true, false, none, some, List, [], ◌∷◌, Dict}
use async_gateway.Prelude.Int.{pos}
use async_gateway.Values.{
  Value, none_value, bool, int, text, dict, list, nil, end, ok, err, excluded, missing,
}
use async_gateway.Errors.{sftp_status_error}
use async_gateway.Tests.Redirects.{plain}
use async_gateway.Sftp.{
  Auth, legacy, unchecked, SftpRequest, new_sftp_request, host_key_policy, sftp_credentials_of,
}
use async_gateway.Sftp.Policy.{IsExplicit, new_sftp_request-IsExplicit}
use async_gateway.Sftp.Failures.{sftp_error, exhausted, got, typed, thrown_for}
use async_gateway.Sftp.Sessions.{
  World, Event, connected, inspected, operated, download, handle_request,
}

abbrev options : Dict Value
options =
    ("mode", text "get")
    ∷ ("remote_path", text "r")
    ∷ ("local_path", text "/l")
    ∷ ("insecure_skip_host_key_check", bool true)
    ∷ []

abbrev user : Auth
user = legacy (text "u") (text "")

abbrev built : SftpRequest
built = record {
  mode_ = text "get";
  remote_path = text "r";
  local_path = text "/l";
  overwrite = false;
  max_response_bytes = 67108864;
  additional_arguments = dict end;
  connect_options = record {
    host = "h";
    port = int (pos 22);
    timeout = int (pos 5);
    username = "u";
    password = some "";
    client_keys = none;
    passphrase = none;
    agent = false;
    known_hosts = unchecked;
  };
}

constructed : new_sftp_request options "h" user (int (pos 5)) ≡ ok built
unfolding new_sftp_request validated_max_response_bytes lookup has_key
constructed = refl

none_refused : host_key_policy (("known_hosts", none_value) ∷ []) ≡ err (excluded "known_hosts")
unfolding host_key_policy has_key
none_refused = refl

two_policies_refused :
    host_key_policy (("known_hosts", text "f") ∷ ("host_key", text "k") ∷ [])
    ≡ err (excluded "known_hosts")
unfolding host_key_policy has_key
two_policies_refused = refl

no_credential_refused :
    sftp_credentials_of (legacy (text "u") none_value) (list nil) ≡ err (missing "password")
unfolding sftp_credentials_of
no_credential_refused = refl

new_sftp_request-IsExplicit_example : IsExplicit options user built.connect_options
new_sftp_request-IsExplicit_example =
    new_sftp_request-IsExplicit options "h" user (int (pos 5)) built constructed

missing_file : thrown_for (exhausted (sftp_error 2)) ≡ typed sftp_status_error (some 404)
unfolding thrown_for
missing_file = refl

-- A server with one file.
abbrev server : World
server = record {
  connect = none;
  offers = λ name. true;
  absolute = λ s. s;
  is_directory = λ path. false;
  run = λ operation. none;
  lstat = λ path. got (record { file_type = 1; known = [] });
  listdir = λ path. got [];
}

abbrev asked : List Event
asked =
    connected unchecked
    ∷ inspected "r"
    ∷ operated (download "get" "r" "/l" "/l" false 67108864 [])
    ∷ []

downloaded : (handle_request plain built server).0 ≡ asked
unfolding handle_request
downloaded = refl
