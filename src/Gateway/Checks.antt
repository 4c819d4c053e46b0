-- ===== src/Gateway/Checks.antt =====
-- The processors of a call and what is checked of them (asyncio_gateway/asyncio_gateway.py).
use async_gateway.Prelude.{
  String, Bool, true, false, ◌&&◌, Option, none, some, [], ◌∷◌, ◌==◌, Dict, lookup, has_key, all,
  if◌then◌else◌, keys,
}
use async_gateway.Values.{
  Value, none_value, text, dict, function, exception_class, fields, Result, ok, err, not_a_mapping,
  missing, wrong_type, reserved_name, unknown_keys,
}
use async_gateway.Errors.{processor_error, status_code}
use async_gateway.Gateway.{Host, Processed, Raised, gateway, recursion, foreign, cancelled}
use async_gateway.Gateway.Envelope.{is_whole_envelope}

-- `callable(function)`; a class is callable.
abbrev is_callable : Value → Bool
is_callable (function f) = true
is_callable (exception_class c) = true
is_callable _ = false

-- `config.get('params')`, with `None` read as no parameters.
params_in : String → Option Value → Result (Dict Value)
params_in setting none = ok []
params_in setting (some none_value) = ok []
params_in setting (some (dict fs)) =
    if has_key "response" (fields fs) then err (reserved_name setting) else ok (fields fs)
params_in setting (some _) = err (wrong_type setting)

function_in : String → Dict Value → Option Value → Result (Value × Dict Value)
unfolding params_in
function_in setting config none = err (missing setting)
function_in setting config (some f) =
    if is_callable f
    then elim (params_in setting (lookup "params" config)) [
      | ok params ↦ ok (f, params)
      | err e ↦ err e
    ]
    else err (wrong_type setting)

-- `validated_processor_config`
unfoldable pub validated_processor_config : String → Value → Result (Value × Dict Value)
unfolding function_in
validated_processor_config setting (dict fs) =
    function_in setting (fields fs) (lookup "function" (fields fs))
validated_processor_config setting _ = err (not_a_mapping setting)

-- `except AsyncGatewayError: raise`, `except Exception` and what neither catches.
abbrev pub processor_failure : Host → Raised → Raised
processor_failure host (gateway class status id) = gateway class status id
processor_failure host (recursion id) =
    gateway processor_error (status_code processor_error none)
      (host.raise_new processor_error (some id))
processor_failure host (foreign id) =
    gateway processor_error (status_code processor_error none)
      (host.raise_new processor_error (some id))
processor_failure host (cancelled id) = cancelled id

pub data Ran : Type 0 where
  returned : Value → Dict Value → Ran
  failed : Raised → Ran

abbrev ran : Host → Processed → Option Raised → Ran
ran host p none = returned p.returned p.envelope
ran host p (some r) = failed (processor_failure host r)

-- `run_processor`: the value and the envelope as the processor left it.
unfoldable pub run_processor : Host → Value × Dict Value → Dict Value → Ran
run_processor host (f, params) env = let p = host.processor f params env in ran host p p.failure

-- `reject_unknown_request_kwargs`
unfoldable pub reject_unknown_request_kwargs : Dict Value → Result (Unit {0})
reject_unknown_request_kwargs [] = ok tt
reject_unknown_request_kwargs (k ∷ ks) = err (unknown_keys "request" (keys (k ∷ ks)))

-- `resolved[key] != value`, where the value that the call resolved is a text.
abbrev pub is_text : String → Option Value → Bool
is_text s (some (text r)) = s == r
is_text s _ = false

abbrev pub unchanged : Option (Dict String) → Dict Value → Bool
unchanged none env = true
unchanged (some dispatch) env = all (λ kv. is_text kv.1 (lookup kv.0 env)) dispatch

-- `checked_envelope`, whose result is the envelope; `dispatch` has the texts that must stand.
unfoldable pub checked_envelope : Host → Option (Dict String) → Dict Value → Option Raised
checked_envelope host dispatch env =
    if is_whole_envelope env && unchanged dispatch env
    then none
    else some (
        gateway processor_error (status_code processor_error none)
          (host.raise_new processor_error none))
