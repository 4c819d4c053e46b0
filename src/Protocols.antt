-- ===== src/Protocols.antt =====
-- The options and the destination of a call (asyncio_gateway/helpers/internal/base.py).
pub mod Options
pub mod Clients
use async_gateway.Prelude.{
  ℕ, String, Bool, true, false, not, ◌&&◌, ◌||◌, Option, none, some, List, [], ◌∷◌, ◌==◌, Dict,
  lookup, has_key, keys, any, all, eqb, contains, find?, is_some, if◌then◌else◌,
}
use async_gateway.Prelude.Int.{ℤ, pos, negsuc}
use async_gateway.Values.{
  Value, none_value, dict, text, Fields, fields, Result, ok, err, not_a_mapping, missing,
  unknown_keys, bad_url, value_error, ◌>>=◌, ◌>>◌,
}
use async_gateway.Values.Texts.{Texts, Parts, Urls}
use async_gateway.Settings.Checks.{unknown}
use async_gateway.Registry.{BreakerKey}
use Prim.Native.String.{◌++◌}

-- `SECURITY_SENSITIVE_OPTION_FRAGMENTS`
abbrev pub security_sensitive_option_fragments : List String
security_sensitive_option_fragments =
    "agent" ∷ "api_key" ∷ "auth" ∷ "cert" ∷ "cookie" ∷ "credential" ∷ "header" ∷ "host_key"
    ∷ "client_key" ∷ "key_passphrase" ∷ "known_host" ∷ "password" ∷ "private_key" ∷ "public_key"
    ∷ "redirect" ∷ "scheme" ∷ "secret" ∷ "ssl" ∷ "tls" ∷ "token" ∷ "verify" ∷ []

-- `_is_security_sensitive_option`; `replace` writes `_` for each `-`.
unfoldable pub is_security_sensitive_option : Texts → (String → String) → String → Bool
is_security_sensitive_option t replace name =
    any (λ fragment. is_some (find? (replace (t.lower name)) fragment))
      security_sensitive_option_fragments

-- The required names that are not there.
unfoldable pub absent : List String → Dict Value → List String
absent [] info = []
absent (name ∷ required) info =
    let rest = absent required info in if has_key name info then rest else name ∷ rest

abbrev info_in : Value → Result (Dict Value)
info_in none_value = ok []
info_in (dict fs) = ok (fields fs)
info_in _ = err (not_a_mapping "protocol_info")

abbrev pub without_absent : List String → Dict Value → Result (Dict Value)
without_absent [] info = ok info
without_absent (name ∷ names) info = err (unknown_keys "required" (name ∷ names))

-- The options, and whether a deprecation was warned of.
abbrev pub closed : List String → Dict Value → Result (Dict Value × Bool)
closed [] info = ok (info, false)
closed (k ∷ ks) info = err (unknown_keys "protocol_info" (k ∷ ks))

abbrev pub tolerated : (String → Bool) → List String → Dict Value → Result (Dict Value × Bool)
tolerated sensitive [] info = ok (info, false)
tolerated sensitive (k ∷ ks) info =
    if any sensitive (k ∷ ks) then err (unknown_keys "protocol_info" (k ∷ ks)) else ok (info, true)

-- The keys that the strategy does not know: all refused against `allowed`; against `accepted` only
-- where one of them resembles a security control.
abbrev pub known :
    (String → Bool)
    → Option (List String)
    → Option (List String)
    → Dict Value
    → Result (Dict Value × Bool)
known sensitive (some allowed) accepted info = closed (unknown allowed (keys info)) info
known sensitive none (some accepted) info = tolerated sensitive (unknown accepted (keys info)) info
known sensitive none none info = ok (info, false)

-- `validated_protocol_info`
unfoldable pub validated_protocol_info :
    Texts
    → (String → String)
    → List String
    → Option (List String)
    → Option (List String)
    → Value
    → Result (Dict Value × Bool)
unfolding absent unknown
validated_protocol_info t replace required allowed accepted value = do
  info ← info_in value
  checked ← without_absent (absent required info) info
  known (is_security_sensitive_option t replace) allowed accepted checked

-- The part after the last `c`, or the whole.
unfoldable pub after_last : ℕ → List ℕ → List ℕ
after_last c [] = []
after_last c (x ∷ xs) =
    let rest = after_last c xs in
    if any (λ y. eqb y c) xs then rest else if eqb x c then xs else x ∷ xs

abbrev all_digits : (ℕ → Bool) → List ℕ → Bool
all_digits is_digit [] = false
all_digits is_digit (x ∷ xs) = all is_digit (x ∷ xs)

-- `_has_numeric_port`, of a network location as code points: 93 is `]` and 58 is `:`.
unfoldable pub has_numeric_port : (ℕ → Bool) → List ℕ → Bool
unfolding after_last
has_numeric_port is_digit netloc =
    let tail = after_last 93 netloc in
    any (λ y. eqb y 58) tail && all_digits is_digit (after_last 58 tail)

-- `DEFAULT_PORTS` and `UNKNOWN_PORT`
abbrev pub default_ports : Dict ℤ
default_ports = ("http", pos 80) ∷ ("https", pos 443) ∷ ("ftp", pos 21) ∷ ("sftp", pos 22) ∷ []

abbrev or_default : Option ℤ → ℤ
or_default none = negsuc 0
or_default (some port) = port

abbrev port_or_default : String → Option ℤ → ℤ
port_or_default family none = or_default (lookup family default_ports)
port_or_default family (some port) = port

abbrev text_or : String → String → String
text_or a b = if a == "" then b else a

abbrev optional_text : Option String → String
optional_text none = ""
optional_text (some s) = s

-- What of the language's texts the destination uses: their code points and the digits among them.
pub record Letters : Type 0 where
  pub code_points : String → List ℕ
  pub is_digit : ℕ → Bool

abbrev read_port : Option (Option ℕ) → Result (Option ℤ)
read_port none = err value_error
read_port (some none) = ok none
read_port (some (some n)) = ok (some (pos n))

-- The port that the options name, or that of the URL.
pub port_of : Letters → Parts → Option ℤ → Result (Option ℤ)
port_of l parts (some port) = ok (some port)
port_of l parts none =
    if has_numeric_port l.is_digit (l.code_points parts.netloc)
    then read_port parts.port
    else ok none

pub located : Texts → Letters → String → Option ℤ → Option Parts → Result BreakerKey
unfolding port_of lookup
located t l protocol port none = err bad_url
located t l protocol port (some parts) = do
  let family = t.lower (text_or parts.scheme protocol)
  found ← port_of l parts port
  ok (record {
    family = family;
    host = t.lower (optional_text parts.hostname);
    port = port_or_default family found;
  })

-- `destination_of`
unfoldable pub destination_of :
    Texts → Urls → Letters → String → String → Option ℤ → Result BreakerKey
unfolding located
destination_of t u l protocol url port =
    located t l protocol port (u.split (if is_some (find? url "://") then url else "//" ++ url))
