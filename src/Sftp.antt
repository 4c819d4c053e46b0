-- ===== src/Sftp.antt =====
-- The SFTP client's credentials and host key policy (asyncio_gateway/logic/sftp_client.py, with
-- `SFTPAuth` of asyncio_gateway/auth.py): `sftp_credentials_of`, `_connect_options` and the
-- constructor from where the base class has set the options, the host and the timeout.
pub mod Policy
pub mod Jobs
pub mod Failures
pub mod Sessions
use async_gateway.Prelude.{
  ℕ, String, Bool, true, false, not, ◌&&◌, ◌||◌, Option, none, some, List, [], ◌∷◌, ◌==◌, Dict,
  lookup, has_key, is_some, is_none, if◌then◌else◌,
}
use async_gateway.Prelude.Int.{pos}
use async_gateway.Values.{
  Value, none_value, bool, int, text, bytes, list, dict, nil, end, Result, ok, err, wrong_type,
  excluded, missing, ◌>>=◌, ◌>>◌,
}
use async_gateway.Http.{value}
use async_gateway.Http.Limits.{validated_max_response_bytes}

-- An `SFTPAuth`, or another object by its `login` and `password`, where a missing one is `None`.
pub data Auth : Type 0 where
  sftp_auth : (username password client_keys key_passphrase use_ssh_agent : Value) → Auth
  legacy : (login password : Value) → Auth

-- `_explicit_client_keys`; `none` is `None`.
unfoldable pub explicit_client_keys : Value → Option Value
explicit_client_keys none_value = none
explicit_client_keys (text s) = if s == "" then none else some (text s)
explicit_client_keys (bytes []) = none
explicit_client_keys (list nil) = none
explicit_client_keys (dict end) = none
explicit_client_keys keys = some keys

pub record Credentials : Type 0 where
  pub username : String
  pub password : Option String
  pub client_keys : Option Value
  pub key_passphrase : Option String
  pub use_ssh_agent : Bool

abbrev pub one_source : Option Value → Option Value → Result (Option Value)
one_source (some a) (some b) = err (excluded "client_keys")
one_source (some a) none = ok (some a)
one_source none b = ok b

abbrev pub optional_text_in : String → Value → Result (Option String)
optional_text_in key none_value = ok none
optional_text_in key (text s) = ok (some s)
optional_text_in key _ = err (wrong_type key)

abbrev pub flag_in : String → Value → Result Bool
flag_in key (bool b) = ok b
flag_in key _ = err (wrong_type key)

abbrev pub named_user : Value → Result String
named_user (text s) = if s == "" then err (missing "username") else ok s
named_user _ = err (missing "username")

-- The last two tests, on what the caller gave.
unfoldable pub complete : Credentials → Result Credentials
complete c =
    if is_some c.key_passphrase && is_none c.client_keys
    then err (missing "client_keys")
    else if is_none c.password && is_none c.client_keys
    then err (missing "password")
    else ok c

unfoldable pub checked_credentials :
    Value → Value → Option Value → Option String → Bool → Result Credentials
unfolding complete
checked_credentials given_name given_password keys passphrase agent = do
  username ← named_user given_name
  password ← optional_text_in "password" given_password
  complete (record {
    username = username;
    password = password;
    client_keys = keys;
    key_passphrase = passphrase;
    use_ssh_agent = agent;
  })

unfoldable pub sftp_credentials_of : Auth → Value → Result Credentials
unfolding explicit_client_keys checked_credentials
sftp_credentials_of (sftp_auth name password client_keys key_passphrase use_ssh_agent) legacy_keys =
    do
      keys ← one_source (explicit_client_keys client_keys) (explicit_client_keys legacy_keys)
      passphrase ← optional_text_in "key_passphrase" key_passphrase
      agent ← flag_in "use_ssh_agent" use_ssh_agent
      checked_credentials name password keys passphrase agent
sftp_credentials_of (legacy login password) legacy_keys =
    checked_credentials login password (explicit_client_keys legacy_keys) none false

-- The option `known_hosts` of `asyncssh.connect`: absent, `None`, one pinned key, or the caller's.
pub data KnownHosts : Type 0 where
  default_hosts unchecked : KnownHosts
  pinned : Value → KnownHosts
  given_hosts : Value → KnownHosts

abbrev pub value_at : String → Dict Value → Value
value_at key info = elim (lookup key info) [ none ↦ none_value | some v ↦ v ]

abbrev pub is_true : Value → Bool
is_true (bool true) = true
is_true _ = false

abbrev pub is_none_value : Value → Bool
is_none_value none_value = true
is_none_value _ = false

-- More than one of the three is asked for.
abbrev pub conflicting : Bool → Bool → Bool → Bool
conflicting a b c = (a && b) || (a && c) || (b && c)

abbrev pub chosen_policy : Value → Bool → Value → KnownHosts
chosen_policy host_key insecure known =
    if insecure
    then unchecked
    else if not (is_none_value host_key)
    then pinned host_key
    else if not (is_none_value known)
    then given_hosts known
    else default_hosts

-- The host key policy of `_connect_options`.
unfoldable pub host_key_policy : Dict Value → Result KnownHosts
host_key_policy info =
    let known = value_at "known_hosts" info in
    let host_key = value_at "host_key" info in
    let insecure = is_true (value_at "insecure_skip_host_key_check" info) in
    if has_key "known_hosts" info && is_none_value known
    then err (excluded "known_hosts")
    else if conflicting (not (is_none_value host_key)) insecure (not (is_none_value known))
    then err (excluded "known_hosts")
    else ok (chosen_policy host_key insecure known)

-- What `asyncssh.connect` is given. `agent` is false where `agent_path=None` keeps it from the agent.
pub record ConnectOptions : Type 0 where
  pub host : String
  pub port : Value
  pub timeout : Value
  pub username : String
  pub password : Option String
  pub client_keys : Option Value
  pub passphrase : Option String
  pub agent : Bool
  pub known_hosts : KnownHosts

abbrev pub connecting : String → Value → Value → Credentials → KnownHosts → ConnectOptions
connecting url port timeout c policy = record {
  host = url;
  port = port;
  timeout = timeout;
  username = c.username;
  password = c.password;
  client_keys = c.client_keys;
  passphrase = c.key_passphrase;
  agent = c.use_ssh_agent;
  known_hosts = policy;
}

pub record SftpRequest : Type 0 where
  pub mode_ : Value
  pub remote_path : Value
  pub local_path : Value
  pub overwrite : Bool
  pub max_response_bytes : ℕ
  pub additional_arguments : Value
  pub connect_options : ConnectOptions

abbrev pub value_or : String → Value → Dict Value → Value
value_or key default info = elim (lookup key info) [ none ↦ default | some v ↦ v ]

-- `SFTPRequest.__init__`
unfoldable pub new_sftp_request : Dict Value → String → Auth → Value → Result SftpRequest
unfolding sftp_credentials_of host_key_policy
new_sftp_request info url auth timeout = do
  credentials ← sftp_credentials_of auth (value_at "client_keys" info)
  budget ←
      validated_max_response_bytes (value (value_or "max_response_bytes" (int (pos 67108864)) info))
  policy ← host_key_policy info
  ok (record {
    mode_ = value_at "mode" info;
    remote_path = value_at "remote_path" info;
    local_path = value_at "local_path" info;
    overwrite = is_true (value_at "overwrite" info);
    max_response_bytes = budget;
    additional_arguments = value_or "additional_arguments" (dict end) info;
    connect_options =
        connecting url (value_or "port" (int (pos 22)) info) timeout credentials policy;
  })
