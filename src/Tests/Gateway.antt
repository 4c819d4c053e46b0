-- ===== src/Tests/Gateway.antt =====
-- asyncio_gateway/asyncio_gateway.py at concrete inputs.
use async_gateway.Gateway.Prepared.{processor_in}
use async_gateway.Gateway.Targets.{validated_port}
use async_gateway.Gateway.Targets.{resolve_protocol}
use async_gateway.Gateway.Checks.{reject_unknown_request_kwargs}
use async_gateway.Prelude.{◌≡◌, refl, true, none, some, [], ◌∷◌, Dict, All, lookup}
use async_gateway.Values.{
  Value, none_value, text, dict, end, field, function, truthy, ok, err, missing,
}
use async_gateway.Values.Floats.{whole}
use async_gateway.Errors.{connect_error}
use async_gateway.Gateway.{Host, Strategy, gateway}
use async_gateway.Gateway.Checks.{validated_processor_config}
use async_gateway.Gateway.Prepared.{Arguments, Prepared, prepare}
use async_gateway.Gateway.Request.{answered, request, settle}
use async_gateway.Gateway.Whole.{IsWhole, request-IsWhole}
use async_gateway.Gateway.Routes.{IsRouted, request-AreRouted}
use async_gateway.Gateway.Failing.{IsFailure, settle-IsFailure}

-- A client that fails to connect after it wrote the headers.
abbrev client : Strategy
client = record {
  validate_info = λ info protocol. ok [];
  construct = λ target auth info env. record { writes = []; failure = none };
  handle = λ target auth info env. record {
    writes = ("headers", text "seen") ∷ [];
    failure = some (gateway connect_error 502 0);
  };
}

-- A host whose processors empty the envelope.
abbrev pub host : Host
host = record {
  texts = record { lower = λ s. s; upper = λ s. s; strip = λ s. s };
  urls = record {
    split = λ url.
        some (record { scheme = "https"; netloc = url; hostname = some url; port = some none });
    join = λ base reference. some reference;
  };
  redact_url = λ names url. url;
  redact_text = λ names s. s;
  redact_payload = λ payload. payload;
  utc_now = "2024-01-01T00:00:00+00:00";
  elapsed = whole 1;
  strategy = λ name. client;
  processor = λ f params env. record { envelope = []; failure = none; returned = none_value };
  store =
      λ n. record { type_name = "ConnectError"; text = "refused"; cause = none; context = none };
  raise_new = λ class cause. 1;
  max_depth = 10;
}

abbrev call : Arguments
call = record {
  url = text "https://example.org";
  payload = none_value;
  auth = none_value;
  protocol = text "HTTPS";
  protocol_info = none_value;
  pre_processor_config = none_value;
  post_processor_config = none_value;
  kwargs = [];
}

abbrev prepared : Prepared
prepared = record {
  url = "https://example.org";
  protocol = "HTTPS";
  info = [];
  pre_processor = none;
  post_processor = none;
  payload = dict end;
}

call-prepared : prepare host call ≡ ok prepared
unfolding prepare reject_unknown_request_kwargs resolve_protocol validated_port lookup processor_in
call-prepared = refl

request-IsWhole_example : IsWhole (request host call).1
request-IsWhole_example = request-IsWhole host call

request-AreRouted_example : All (IsRouted host prepared) (request host call).0
request-AreRouted_example = request-AreRouted host call prepared call-prepared

settle-IsFailure_example :
    (left : Dict Value) × ((settle host prepared [] [] (some (gateway connect_error 502 0))).1
      ≡ answered left)
    × IsFailure host none connect_error 502 0 left
unfolding lookup
settle-IsFailure_example =
    settle-IsFailure host prepared [] [] (gateway connect_error 502 0) connect_error 502 0 refl refl

abbrev written : Dict Value
written = ("headers", text "seen") ∷ []

-- A post-processor configuration without its function.
abbrev misspelt : Value
misspelt = dict (field "fucntion" (function 1) end)

misspelt_refused :
    validated_processor_config "post_processor_config" misspelt
    ≡ err (missing "post_processor_config")
unfolding validated_processor_config lookup
misspelt_refused = refl

misspelt-truthy : truthy misspelt ≡ true
unfolding truthy
misspelt-truthy = refl
