-- ===== src/Gateway/Targets.antt =====
-- The protocol and the URL of a call: `resolve_protocol` and `dispatch_url_for` of
-- asyncio_gateway/asyncio_gateway.py, `validated_port` of asyncio_gateway/helpers/internal/base.py,
-- and the names of asyncio_gateway/logic/__init__.py.
use async_gateway.Prelude.{
  ℕ, String, Bool, true, not, ◌&&◌, Option, none, some, List, [], ◌∷◌, ◌==◌, Dict, lookup, contains,
  leb, if◌then◌else◌,
}
use Prim.Native.String.{◌++◌}
use async_gateway.Prelude.Int.{pos}
use async_gateway.Values.{
  Value, none_value, int, text, Result, ok, err, no_protocol, bad_url, no_authority, bad_scheme,
  bad_port,
}
use async_gateway.Values.Texts.{Texts, Parts, Urls}

abbrev pub protocol_names : List String
protocol_names =
    "HTTP" ∷ "HTTPS" ∷ "FTP" ∷ "SFTP" ∷ "SOAP" ∷ "JSONRPC" ∷ "GRAPHQL" ∷ "S3" ∷ "GCS" ∷ "GRPC" ∷ []

-- `resolve_protocol`: the class is known by its name.
unfoldable pub resolve_protocol : Texts → Value → Result String
resolve_protocol t (text s) =
    let name = t.upper (t.strip s) in
    if contains protocol_names name then ok name else err no_protocol
resolve_protocol t _ = err no_protocol

-- `validated_port`, of `info.get('port')`.
unfoldable pub validated_port : Option Value → Result (Option ℕ)
validated_port none = ok none
validated_port (some none_value) = ok none
validated_port (some (int (pos n))) = if leb n 65535 then ok (some n) else err bad_port
validated_port (some _) = err bad_port

-- `PROTOCOL_SCHEME_ALLOWLISTS`
abbrev pub protocol_scheme_allowlists : Dict (List String)
protocol_scheme_allowlists =
    ("HTTP", "http" ∷ "https" ∷ [])
    ∷ ("HTTPS", "https" ∷ [])
    ∷ ("JSONRPC", "http" ∷ "https" ∷ [])
    ∷ ("GRAPHQL", "http" ∷ "https" ∷ [])
    ∷ ("S3", "s3" ∷ [])
    ∷ ("GCS", "gs" ∷ [])
    ∷ ("GRPC", "grpc" ∷ "grpcs" ∷ [])
    ∷ []

abbrev http_family : List String
http_family = "HTTP" ∷ "HTTPS" ∷ []

abbrev url_dispatched : List String
url_dispatched = "HTTP" ∷ "HTTPS" ∷ "SOAP" ∷ []

-- A URL that was split, against the schemes of its protocol.
pub targeted : Texts → String → String → Option (List String) → Parts → Result String
targeted t protocol url none parts =
    if t.lower parts.scheme == "" && not (parts.netloc == "") then err no_authority else ok url
targeted t protocol url (some allowed) parts =
    let scheme = t.lower parts.scheme in
    if scheme == ""
    then (if not (parts.netloc == "")
        then err no_authority
        else if not (contains http_family protocol)
        then err bad_scheme
        else if protocol == "HTTPS"
        then ok ("https://" ++ url)
        else ok url)
    else if contains allowed scheme
    then ok url
    else err bad_scheme

abbrev split_target : Texts → String → String → Option (List String) → Option Parts → Result String
split_target t protocol url allowed none = err bad_url
split_target t protocol url allowed (some parts) = targeted t protocol url allowed parts

abbrev is_dispatched : String → Option (List String) → Bool
is_dispatched protocol none = contains url_dispatched protocol
is_dispatched protocol (some allowed) = true

-- `dispatch_url_for`
unfoldable pub dispatch_url_for : Texts → Urls → String → String → Result String
unfolding lookup targeted
dispatch_url_for t u protocol url =
    let allowed = lookup protocol protocol_scheme_allowlists in
    if is_dispatched protocol allowed
    then split_target t protocol url allowed (u.split url)
    else ok url
