-- ===== src/Ftp.antt =====
-- The FTP client (asyncio_gateway/logic/ftp_client.py): its constructor from where the base class has
-- set the options, the certificate, the host and the auth, with `credentials_of` of
-- asyncio_gateway/helpers/internal/base.py.
pub mod Failures
pub mod Sessions
use async_gateway.Prelude.{
  ℕ, String, Bool, true, false, not, ◌&&◌, Option, none, some, List, [], ◌∷◌, ◌==◌, Dict, lookup,
  is_some, if◌then◌else◌,
}
use async_gateway.Prelude.Int.{pos}
use async_gateway.Values.{
  Value, none_value, bool, int, text, Result, ok, err, wrong_type, excluded, missing, truthy, ◌>>=◌,
  ◌>>◌,
}
use async_gateway.Http.{value}
use async_gateway.Http.Limits.{validated_max_response_bytes}
use async_gateway.Sftp.{value_at, value_or, is_true}

-- `credentials_of`, of the `login` and the `password` of the auth, where a missing one is `None`.
unfoldable pub credentials_of : Value → Value → Result (String × String)
credentials_of (text login) (text password) = ok (login, password)
credentials_of _ _ = err (missing "auth")

pub data TlsMode : Type 0 where
  implicit explicit plaintext : TlsMode

abbrev named_mode : Value → Result (Option TlsMode)
named_mode (text s) =
    if s == "implicit"
    then ok (some implicit)
    else if s == "explicit"
    then ok (some explicit)
    else err (wrong_type "tls_mode")
named_mode _ = err (wrong_type "tls_mode")

-- The mode that the options name, which must be one of two.
unfoldable pub tls_mode_in : Option Value → Result (Option TlsMode)
tls_mode_in none = ok none
tls_mode_in (some given) = named_mode given

abbrev pub is_explicit : Option TlsMode → Bool
is_explicit (some explicit) = true
is_explicit _ = false

-- A named mode needs verification, and the explicit one takes no client certificate.
unfoldable pub agreed_tls : Option TlsMode → Value → Option ℕ → Result (Option TlsMode)
agreed_tls mode verify_ssl certificate =
    if is_some mode && not (is_true verify_ssl)
    then err (excluded "tls_mode")
    else if is_explicit mode && is_some certificate
    then err (excluded "certificate")
    else ok mode

unfoldable pub effective_tls_mode : Option TlsMode → Value → TlsMode
effective_tls_mode (some mode) verify_ssl = mode
effective_tls_mode none verify_ssl = if truthy verify_ssl then implicit else plaintext

-- `certificate` is that of the options, unless it is `None`.
pub record FtpRequest : Type 0 where
  pub host : String
  pub user : String
  pub password : String
  pub port : Value
  pub command_ : Value
  pub server_path : Value
  pub client_path : Value
  pub overwrite : Bool
  pub max_response_bytes : ℕ
  pub verify_ssl : Value
  pub certificate : Option ℕ
  pub tls_mode : Option TlsMode
  pub effective : TlsMode

-- `FTPRequest.__init__`
unfoldable pub new_ftp_request : Dict Value → String → Option ℕ → Value → Value → Result FtpRequest
unfolding credentials_of tls_mode_in agreed_tls effective_tls_mode
new_ftp_request info url certificate login password = do
  (user, secret) ← credentials_of login password
  budget ←
      validated_max_response_bytes (value (value_or "max_response_bytes" (int (pos 67108864)) info))
  named ← tls_mode_in (lookup "tls_mode" info)
  mode ← agreed_tls named (value_or "verify_ssl" (bool true) info) certificate
  ok (record {
    host = url;
    user = user;
    password = secret;
    port = value_or "port" (int (pos 21)) info;
    command_ = value_at "command" info;
    server_path = value_at "server_path" info;
    client_path = value_at "client_path" info;
    overwrite = is_true (value_at "overwrite" info);
    max_response_bytes = budget;
    verify_ssl = value_or "verify_ssl" (bool true) info;
    certificate = certificate;
    tls_mode = mode;
    effective = effective_tls_mode mode (value_or "verify_ssl" (bool true) info);
  })
