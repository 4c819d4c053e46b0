-- ===== src/Graphql/Answers/Judged.antt =====
-- When a GraphQL call succeeds, and what else its peer's answer is reported as
-- (asyncio_gateway/logic/graphql_client.py).
use async_gateway.Prelude.{
  ℕ, ◌≡◌, refl, String, Bool, true, false, not, ◌&&◌, ◌||◌, Option, none, some, [], ◌∷◌, eqb, arith,
  Dict, lookup, contains, is_none, is_some, Bool-cases, inl, inr,
}
use async_gateway.Values.{
  Value, none_value, bool, int, float, bytes, function, exception_class, object, text, list, dict,
  cons, fields,
}
use async_gateway.Values.Texts.{Texts}
use async_gateway.JsonRpc.{Fault}
use async_gateway.Graphql.Accepts.{supported_media_types}
use async_gateway.Graphql.Answers.{
  Read, read, all_errors, data_details, detailed, validated_graphql_response, is_success, judged,
  response_error, with_errors,
}

abbrev pub is_object : Option Value → Bool
is_object (some (dict fs)) = true
is_object _ = false

abbrev pub is_object_or_null : Option Value → Bool
is_object_or_null none = true
is_object_or_null (some none_value) = true
is_object_or_null (some (dict fs)) = true
is_object_or_null _ = false

-- A list that is not empty, of objects with a message.
abbrev pub lists_errors : Texts → Value → Bool
lists_errors t (list (cons v vs)) = all_errors t (cons v vs)
lists_errors t _ = false

abbrev pub lists_some : Texts → Option Value → Bool
lists_some t none = false
lists_some t (some errors) = lists_errors t errors

-- A result: an object as data, and no errors at all.
abbrev pub is_result : Value → Bool
is_result (dict fs) = is_object (lookup "data" (fields fs)) && is_none (lookup "errors" (fields fs))
is_result _ = false

-- A report of errors, with or without data.
abbrev pub is_report : Texts → Value → Bool
is_report t (dict fs) =
    is_object_or_null (lookup "data" (fields fs)) && lists_some t (lookup "errors" (fields fs))
is_report t _ = false

abbrev pub reads_result : Read → Bool
reads_result (read details false) = true
reads_result _ = false

abbrev pub reads_report : Read → Bool
reads_report (read details true) = true
reads_report _ = false

with_errors-reads :
    (t : Texts) (details : Dict Value) (errors : Value)
    → (reads_report (with_errors t details errors) ≡ lists_errors t errors)
      × (reads_result (with_errors t details errors) ≡ false)
with_errors-reads t details errors = ground arith

detailed-reads :
    (t : Texts) (data_ errors : Option Value)
    → (is_none data_ && is_none errors) ≡ false
    → (reads_result (detailed t data_ errors (data_details data_))
        ≡ (is_object data_ && is_none errors))
      × (reads_report (detailed t data_ errors (data_details data_))
          ≡ (is_object_or_null data_ && lists_some t errors))
detailed-reads t none none h = cc
detailed-reads t (some v) none h = ground arith
detailed-reads t none (some errors) h = ground (arith, with_errors-reads t [] errors)
detailed-reads t (some v) (some errors) h =
    ground (arith, with_errors-reads t (("data", v) ∷ []) errors)

validated_graphql_response-reads :
    (t : Texts) (body : Value)
    → (reads_result (validated_graphql_response t body) ≡ is_result body)
      × (reads_report (validated_graphql_response t body) ≡ is_report t body)
unfolding validated_graphql_response
validated_graphql_response-reads t (dict fs) =
    let data_ = lookup "data" (fields fs) in
    let errors = lookup "errors" (fields fs) in
    elim (Bool-cases (is_none data_ && is_none errors)) [
      | inl none_ ↦ ground (arith, none_)
      | inr some_ ↦ ground (arith, some_, detailed-reads t data_ errors some_)
    ]
validated_graphql_response-reads t none_value = (refl, refl)
validated_graphql_response-reads t (bool b) = (refl, refl)
validated_graphql_response-reads t (int n) = (refl, refl)
validated_graphql_response-reads t (float x) = (refl, refl)
validated_graphql_response-reads t (text s) = (refl, refl)
validated_graphql_response-reads t (bytes ns) = (refl, refl)
validated_graphql_response-reads t (list vs) = (refl, refl)
validated_graphql_response-reads t (function f) = (refl, refl)
validated_graphql_response-reads t (exception_class c) = (refl, refl)
validated_graphql_response-reads t (object name) = (refl, refl)

-- The error has the status of the response.
abbrev pub has_status : ℕ → Option Fault → Bool
has_status status (some (class, some code)) = eqb code status
has_status status _ = false

judged-reads :
    (status : ℕ) (media : String) (r : Read)
    → (is_none (judged status media r).0 ≡ (is_success status && reads_result r))
      × (is_some (judged status media r).1 ≡ (reads_result r || reads_report r))
      × ((is_success status || has_status status (judged status media r).0) ≡ true)
judged-reads status media r = ground arith

-- A GraphQL call succeeds exactly where the status is from 200 to 299, the media type is one of the
-- two, the body could be read, its data are an object and it has no errors. The details are kept
-- exactly where the body is such a result or a report of errors and, for a status from 200 to 299, the
-- media type is one of the two. For every other status there is an error, which has that status.
pub response_error_lem :
    (t : Texts) (status : ℕ) (media : String) (malformed : Bool) (body : Value)
    → (is_none (response_error t status media malformed body).0 ≡ (
        is_success status
        && contains supported_media_types media
        && not malformed
        && is_result body))
      × (is_some (response_error t status media malformed body).1 ≡ (
          (not (is_success status) || contains supported_media_types media)
          && not malformed
          && (is_result body || is_report t body)))
      × ((is_success status || has_status status (response_error t status media malformed body).0)
          ≡ true)
unfolding response_error
response_error_lem t status media malformed body = ground (
  arith,
  judged-reads status media (validated_graphql_response t body),
  validated_graphql_response-reads t body,
)
