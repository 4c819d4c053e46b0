-- ===== src/Http/Sessions.antt =====
-- The session that a caller may supply, the serializer and the tracers
-- (asyncio_gateway/logic/http_client.py:
-- `validated_session`, `validated_json_serializer`, `validated_serialization`, `validated_trace_config`).
use async_gateway.Prelude.{
  String, Bool, not, ◌&&◌, Option, none, some, List, [], ◌∷◌, Dict, lookup, has_key, any, is_some,
  if◌then◌else◌,
}
use async_gateway.Values.{
  Value, none_value, function, exception_class, Result, ok, err, wrong_type, credential,
  closed_session, excluded, missing, raised_by, ◌>>=◌,
}
use async_gateway.Redirects.{may_cross}
use async_gateway.Http.{
  Language, Probe, returns_text, returns_other, raises, Tracer, Session, Entry, plain, tracing,
  Given, value, session, as_collection, is_text,
}

module _ (l : Language) where
  -- A default header of the session that no hop could withhold.
  abbrev pub carries : List String → List String → Bool
  carries cross_origin_forward names =
      any (λ name. not (may_cross l.texts cross_origin_forward name)) names

  unfoldable pub validated_session : Given → List String → Result (Option Session)
  validated_session (value none_value) cross_origin_forward = ok none
  validated_session (session s) cross_origin_forward =
      if s.closed
      then err (closed_session "session")
      else if carries cross_origin_forward s.headers
      then err (credential "session")
      else if is_some s.auth
      then err (credential "session")
      else ok (some s)
  validated_session _ cross_origin_forward = err (wrong_type "session")

  abbrev probed : Value → Probe → Result Value
  probed serializer returns_text = ok serializer
  probed serializer returns_other = err (wrong_type "serialization")
  probed serializer (raises callable) = err (raised_by callable)

  -- `validated_json_serializer`; functions and classes are callable.
  unfoldable pub validated_json_serializer : Given → Result Value
  validated_json_serializer (value (function f)) = probed (function f) (l.probe (function f))
  validated_json_serializer (value (exception_class c)) =
      probed (exception_class c) (l.probe (exception_class c))
  validated_json_serializer _ = err (wrong_type "serialization")

  -- `none` is `default_json_serialize`, which gives a text for an empty dict.
  abbrev serializer_in : Option Given → Result (Option Value)
  serializer_in none = ok none
  serializer_in (some given) = do serializer ← validated_json_serializer given; ok (some serializer)

  unfoldable pub validated_serialization : Dict Given → Option Session → Result (Option Value)
  unfolding validated_json_serializer
  validated_serialization info supplied =
      if is_some supplied && has_key "serialization" info
      then err (excluded "serialization")
      else serializer_in (lookup "serialization" info)

-- The entries of the collection, each a tracer with a mapping to write into.
unfoldable pub checked_tracers : List Entry → Result (List Tracer)
checked_tracers [] = ok []
checked_tracers (plain v ∷ rest) = err (wrong_type "trace_config")
checked_tracers (tracing t ∷ rest) = elim t.collector [
  | none ↦ err (missing "results_collector")
  | some c ↦ checked_tracers rest >>= λ checked. ok (t ∷ checked)
]

abbrev tracers_in : Option (List Entry) → Result (List Tracer)
tracers_in none = err (wrong_type "trace_config")
tracers_in (some entries) = checked_tracers entries

abbrev traced : Given → Result (List Tracer)
traced given =
    if is_text given then err (wrong_type "trace_config") else tracers_in (as_collection given)

-- `validated_trace_config`; `built_in` is the library's own tracer, `request_tracer()`.
unfoldable pub validated_trace_config : Tracer → Dict Given → Option Session → Result (List Tracer)
unfolding checked_tracers as_collection
validated_trace_config built_in info (some s) =
    if has_key "trace_config" info then err (excluded "trace_config") else ok []
validated_trace_config built_in info none = elim (lookup "trace_config" info) [
  | none ↦ ok (built_in ∷ [])
  | some given ↦ traced given
]
