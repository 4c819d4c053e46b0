-- ===== src/Graphql/Answers.antt =====
-- How a GraphQL response is judged (`validated_graphql_response` and `_response_error` of
-- asyncio_gateway/logic/graphql_client.py).
pub mod Judged
use async_gateway.Prelude.{
  ℕ, String, Bool, true, false, not, ◌&&◌, ◌||◌, Option, none, some, List, [], ◌∷◌, ◌==◌, Dict,
  lookup, put, contains, leb, ltb, if◌then◌else◌, is_none,
}
use async_gateway.Values.{Value, none_value, text, list, dict, Values, nil, cons, fields}
use async_gateway.Values.Texts.{Texts}
use async_gateway.Errors.{ErrorClass, http_status_error, graphql_error, graphql_protocol_error}
use async_gateway.JsonRpc.{Fault}
use async_gateway.Graphql.Accepts.{graphql_response_media_type, supported_media_types}

-- The details and whether there are errors, or the `GraphqlProtocolError`.
pub data Read : Type 0 where
  read : (details : Dict Value) → (has_errors : Bool) → Read
  refused : Read

abbrev pub is_said : Texts → Option Value → Bool
is_said t (some (text s)) = not (t.strip s == "")
is_said t _ = false

abbrev pub is_error : Texts → Value → Bool
is_error t (dict fs) = is_said t (lookup "message" (fields fs))
is_error t _ = false

unfoldable pub all_errors : Texts → Values → Bool
all_errors t nil = true
all_errors t (cons v vs) = let rest = all_errors t vs in is_error t v && rest

-- The details of the data; `none` is the refusal.
abbrev pub data_details : Option Value → Option (Dict Value)
data_details none = some []
data_details (some none_value) = some (("data", none_value) ∷ [])
data_details (some (dict fs)) = some (("data", dict fs) ∷ [])
data_details (some _) = none

abbrev pub with_errors : Texts → Dict Value → Value → Read
with_errors t details (list (cons v vs)) =
    if all_errors t (cons v vs)
    then read (put "errors" (list (cons v vs)) details) true
    else refused
with_errors t details _ = refused

abbrev pub without_errors : Dict Value → Option Value → Read
without_errors details (some none_value) = refused
without_errors details _ = read details false

abbrev pub detailed : Texts → Option Value → Option Value → Option (Dict Value) → Read
detailed t data_ errors none = refused
detailed t data_ none (some details) = without_errors details data_
detailed t data_ (some errors) (some details) = with_errors t details errors

unfoldable pub validated_graphql_response : Texts → Value → Read
unfolding all_errors
validated_graphql_response t (dict fs) =
    let data_ = lookup "data" (fields fs) in
    let errors = lookup "errors" (fields fs) in
    if is_none data_ && is_none errors
    then refused
    else detailed t data_ errors (data_details data_)
validated_graphql_response t _ = refused

abbrev pub is_success : ℕ → Bool
is_success status = leb 200 status && ltb status 300

abbrev pub status_failure : ℕ → Fault
status_failure status = (http_status_error, some status)

-- What an unusable body is reported as.
abbrev pub unusable : ℕ → Fault
unusable status =
    if is_success status then (graphql_protocol_error, none) else status_failure status

abbrev pub judged : ℕ → String → Read → Option Fault × Option (Dict Value)
judged status media refused = (some (unusable status), none)
judged status media (read details true) = (
  some (
      if is_success status || media == graphql_response_media_type
      then (graphql_error, some status)
      else status_failure status),
  some details,
)
judged status media (read details false) =
    (if is_success status then none else some (status_failure status), some details)

-- `_response_error`, and the details that it puts into the envelope.
unfoldable pub response_error :
    Texts → ℕ → String → Bool → Value → Option Fault × Option (Dict Value)
unfolding validated_graphql_response
response_error t status media malformed body =
    if is_success status && not (contains supported_media_types media)
    then (some (graphql_protocol_error, none), none)
    else if malformed
    then (some (unusable status), none)
    else judged status media (validated_graphql_response t body)
