-- ===== src/Gateway/Prepared.antt =====
-- What `request` does before any code of the caller runs (asyncio_gateway/asyncio_gateway.py).
use async_gateway.Prelude.{String, ◌||◌, Option, none, some, ◌==◌, Dict, lookup, if◌then◌else◌}
use async_gateway.Values.{
  Value, none_value, text, dict, end, Result, ok, err, ◌>>=◌, ◌>>◌, bad_url, data_refused, truthy,
}
use async_gateway.Gateway.{Host}
use async_gateway.Gateway.Checks.{validated_processor_config, reject_unknown_request_kwargs}
use async_gateway.Gateway.Targets.{resolve_protocol, validated_port}

-- The arguments of `request`; `kwargs` are the residual ones.
pub record Arguments : Type 0 where
  pub url : Value
  pub payload : Value
  pub auth : Value
  pub protocol : Value
  pub protocol_info : Value
  pub pre_processor_config : Value
  pub post_processor_config : Value
  pub kwargs : Dict Value

abbrev pub Processor : Type 0
Processor = Value × Dict Value

pub record Prepared : Type 0 where
  pub url : String
  pub protocol : String
  pub info : Dict Value
  pub pre_processor : Option Processor
  pub post_processor : Option Processor
  pub payload : Value

abbrev url_in : Value → Result String
url_in (text s) = ok s
url_in _ = err bad_url

-- A configuration that is false means no processor.
unfoldable pub processor_in : String → Value → Result (Option Processor)
unfolding truthy validated_processor_config
processor_in setting config =
    if truthy config
    then (do p ← validated_processor_config setting config; ok (some p))
    else ok none

-- The data of a GCS call, which takes none.
abbrev gcs_data : Value → Result Value
gcs_data none_value = ok (dict end)
gcs_data (dict end) = ok (dict end)
gcs_data _ = err data_refused

abbrev defaulted : Value → Value
defaulted none_value = dict end
defaulted v = v

unfoldable pub data_in : String → Value → Result Value
data_in protocol value =
    if protocol == "GCS"
    then gcs_data value
    else if protocol == "JSONRPC" || protocol == "GRAPHQL"
    then ok value
    else ok (defaulted value)

-- `request`, up to the envelope.
unfoldable pub prepare : Host → Arguments → Result Prepared
unfolding data_in
prepare host a = do
  reject_unknown_request_kwargs a.kwargs
  url ← url_in a.url
  protocol ← resolve_protocol host.texts a.protocol
  info ← (host.strategy protocol).validate_info a.protocol_info protocol
  port ← validated_port (lookup "port" info)
  pre_processor ← processor_in "pre_processor_config" a.pre_processor_config
  post_processor ← processor_in "post_processor_config" a.post_processor_config
  payload ← data_in protocol a.payload
  ok (record {
    url = url;
    protocol = protocol;
    info = info;
    pre_processor = pre_processor;
    post_processor = post_processor;
    payload = payload;
  })
