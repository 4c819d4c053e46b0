-- ===== src/Graphql.antt =====
-- The GraphQL adapter (asyncio_gateway/logic/graphql_client.py): the request that it builds and the
-- options that it adds to those of the HTTP client. The encoder of JSON is a parameter.
pub mod Accepts
pub mod Answers
use async_gateway.Prelude.{
  String, Bool, true, false, Option, none, some, List, [], ◌∷◌, ◌++◌, ◌==◌, Dict, lookup, put,
  if◌then◌else◌, is_none,
}
use async_gateway.Values.{
  Value, none_value, text, bool, dict, Fields, Result, ok, err, wrong_type, not_a_mapping, excluded,
  bad_encoding, value_error, ◌>>=◌,
}
use async_gateway.Values.Texts.{Texts}

abbrev pub said : Texts → String → Value → Result String
said t key (text s) = if t.strip s == "" then err (wrong_type key) else ok s
said t key _ = err (wrong_type key)

unfoldable pub validated_graphql_query : Texts → Value → Result String
validated_graphql_query t given = said t "query" given

unfoldable pub validated_operation_name : Texts → Value → Result String
validated_operation_name t given = said t "operation_name" given

unfoldable pub validated_graphql_variables : Value → Result (Option Fields)
validated_graphql_variables none_value = ok none
validated_graphql_variables (dict fs) = ok (some fs)
validated_graphql_variables _ = err (not_a_mapping "data")

abbrev pub operation : Option String → Dict Value
operation none = []
operation (some name) = ("operationName", text name) ∷ []

abbrev pub variables_in : Option Fields → Dict Value
variables_in none = []
variables_in (some fs) = ("variables", dict fs) ∷ []

-- `encodes` is that `default_json_serialize` accepts the body.
unfoldable pub build_graphql_request :
    (Dict Value → Bool) → String → Option String → Option Fields → Result (Dict Value)
build_graphql_request encodes query operation_name variables =
    let body = ("query", text query) ∷ operation operation_name ++ variables_in variables in
    if encodes body then ok body else err bad_encoding

abbrev value_at : String → Dict Value → Value
value_at key info = elim (lookup key info) [ none ↦ none_value | some v ↦ v ]

abbrev operation_in : Texts → Option Value → Result (Option String)
operation_in t none = ok none
operation_in t (some given) = do name ← validated_operation_name t given; ok (some name)

-- What the constructor does before that of the HTTP client: the URL has no user info, the request is
-- built, a POST that follows no redirect is asked for. `user_info` is that `urlsplit` finds some, and
-- `none` its `ValueError`. The new payload comes first.
unfoldable pub prepared_call :
    Texts
    → (Dict Value → Bool)
    → Option Bool
    → Dict Value
    → Value
    → Result (Dict Value × Dict Value)
unfolding validated_graphql_query validated_operation_name validated_graphql_variables
    build_graphql_request
prepared_call t encodes none info payload = err value_error
prepared_call t encodes (some true) info payload = err (excluded "url")
prepared_call t encodes (some false) info payload = do
  query ← validated_graphql_query t (value_at "query" info)
  operation_name ← operation_in t (lookup "operation_name" info)
  variables ← validated_graphql_variables payload
  wire_body ← build_graphql_request encodes query operation_name variables
  ok (wire_body, put "allow_redirects" (bool false) (put "request_type" (text "POST") info))
