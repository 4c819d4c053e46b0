-- ===== src/Sftp/Policy.antt =====
-- What a constructed SFTP client offers and whom it believes (asyncio_gateway/logic/sftp_client.py).
use async_gateway.Prelude.{
  ◌≡◌, ◌∙◌, subst, String, Bool, true, false, not, ◌&&◌, ◌||◌, Option, none, Dict, has_key, arith,
  is_some, is_none,
}
use async_gateway.Prelude.Int.{pos}
use async_gateway.Values.{Value, int, ok}
use async_gateway.Values.Checked.{bind-ok, ok_injective}
use async_gateway.Http.{value}
use async_gateway.Http.Limits.{validated_max_response_bytes}
use async_gateway.Sftp.{
  Auth, sftp_auth, legacy, Credentials, explicit_client_keys, one_source, optional_text_in, flag_in,
  named_user, complete, checked_credentials, sftp_credentials_of, KnownHosts, unchecked, value_at,
  value_or, is_true, is_none_value, host_key_policy, ConnectOptions, SftpRequest, new_sftp_request,
}

-- The caller asked for the agent.
abbrev pub asks_agent : Auth → Bool
asks_agent (sftp_auth name password keys passphrase use_agent) = is_true use_agent
asks_agent (legacy login password) = false

-- An explicit credential, and a passphrase only with a key.
abbrev pub are_explicit : Option String → Option Value → Option String → Bool
are_explicit password keys passphrase =
    (is_some password || is_some keys) && (is_none passphrase || is_some keys)

complete-are_explicit :
    (c d : Credentials)
    → complete c ≡ ok d
    → (are_explicit d.password d.client_keys d.key_passphrase ≡ true)
      × (d.use_ssh_agent ≡ c.use_ssh_agent)
unfolding complete
complete-are_explicit c d h = ground arith

checked_credentials-are_explicit :
    (name password : Value) (keys : Option Value) (passphrase : Option String) (agent : Bool)
    (c : Credentials)
    → checked_credentials name password keys passphrase agent ≡ ok c
    → (are_explicit c.password c.client_keys c.key_passphrase ≡ true) × (c.use_ssh_agent ≡ agent)
unfolding checked_credentials
checked_credentials-are_explicit name password keys passphrase agent c h =
    let (user, named, h1) = bind-ok (named_user name) _ c h in
    let (word, given, h2) = bind-ok (optional_text_in "password" password) _ c h1 in
    complete-are_explicit _ c h2

flag_in-is_true : (key : String) (v : Value) (b : Bool) → flag_in key v ≡ ok b → b ≡ is_true v
flag_in-is_true key v b h = ground arith

sftp_credentials_of-are_explicit :
    (auth : Auth) (legacy_keys : Value) (c : Credentials)
    → sftp_credentials_of auth legacy_keys ≡ ok c
    → (are_explicit c.password c.client_keys c.key_passphrase ≡ true)
      × (c.use_ssh_agent ≡ asks_agent auth)
unfolding sftp_credentials_of
sftp_credentials_of-are_explicit (legacy login password) legacy_keys c h =
    checked_credentials-are_explicit login password _ none false c h
sftp_credentials_of-are_explicit (sftp_auth name password given phrase use_agent) legacy_keys c h =
    let (keys, e1, h1) =
      bind-ok (one_source (explicit_client_keys given) (explicit_client_keys legacy_keys)) _ c h in
    let (passphrase, e2, h2) = bind-ok (optional_text_in "key_passphrase" phrase) _ c h1 in
    let (agent, e3, h3) = bind-ok (flag_in "use_ssh_agent" use_agent) _ c h2 in
    let (explicit, same) =
      checked_credentials-are_explicit name password keys passphrase agent c h3 in
    (explicit, same ∙ flag_in-is_true "use_ssh_agent" use_agent agent e3)

abbrev pub is_unchecked : KnownHosts → Bool
is_unchecked unchecked = true
is_unchecked _ = false

-- The caller named no other policy.
abbrev pub names_no_key : Dict Value → Bool
names_no_key info = is_none_value (value_at "host_key" info) && not (has_key "known_hosts" info)

-- Host keys go unchecked where the caller says so, and nothing else then.
abbrev pub WasAsked : Dict Value → KnownHosts → Type 0
WasAsked info policy =
    (is_unchecked policy ≡ is_true (value_at "insecure_skip_host_key_check" info))
    × ((not (is_unchecked policy) || names_no_key info) ≡ true)

host_key_policy-WasAsked :
    (info : Dict Value) (policy : KnownHosts)
    → host_key_policy info ≡ ok policy
    → WasAsked info policy
unfolding host_key_policy has_key
host_key_policy-WasAsked info policy h = ground arith

pub record IsExplicit (info : Dict Value) (auth : Auth) (o : ConnectOptions) : Type 0 where
  pub credential : are_explicit o.password o.client_keys o.passphrase ≡ true
  pub agent : o.agent ≡ asks_agent auth
  pub policy : WasAsked info o.known_hosts

-- A client that is constructed offers an explicit password or key, a passphrase only with a key, the
-- agent only if the caller asks for it, and leaves the server's key unchecked exactly where the caller
-- asks for that, and then only if the caller names no key and no known hosts.
pub new_sftp_request-IsExplicit :
    (info : Dict Value) (url : String) (auth : Auth) (timeout : Value) (r : SftpRequest)
    → new_sftp_request info url auth timeout ≡ ok r
    → IsExplicit info auth r.connect_options
unfolding new_sftp_request
new_sftp_request-IsExplicit info url auth timeout r h =
    let (c, e1, h1) = bind-ok (sftp_credentials_of auth (value_at "client_keys" info)) _ r h in
    let (budget, e2, h2) =
      bind-ok
        (validated_max_response_bytes
          (value (value_or "max_response_bytes" (int (pos 67108864)) info)))
        _ r h1 in
    let (policy, e3, h3) = bind-ok (host_key_policy info) _ r h2 in
    let (explicit, same) =
      sftp_credentials_of-are_explicit auth (value_at "client_keys" info) c e1 in
    subst (λ s. IsExplicit info auth s.connect_options) (ok_injective h3)
      (record {
        credential = explicit;
        agent = same;
        policy = host_key_policy-WasAsked info policy e3;
      })
