-- ===== src/Tests/Graphql.antt =====
-- asyncio_gateway/logic/graphql_client.py at concrete requests, headers and responses.
use async_gateway.Prelude.{lookup}
use async_gateway.Prelude.{put}
use async_gateway.Filters.{normalise_media_type}
use async_gateway.Prelude.{
  ℕ, ◌≡◌, refl, Bool, true, false, not, ◌&&◌, ◌||◌, Option, none, some, List, [], ◌∷◌, contains,
  is_none, is_some,
}
use async_gateway.Values.{
  Value, none_value, bool, text, list, dict, cons, nil, Fields, field, end, ok, err, wrong_type,
}
use async_gateway.Errors.{graphql_error}
use async_gateway.Tests.Redirects.{plain}
use async_gateway.Tests.Filters.{codec}
use async_gateway.Graphql.{prepared_call}
use async_gateway.Graphql.Accepts.{
  Letters, graphql_accept, supported_media_types, split, partition, quality_value,
  canonical_graphql_headers,
}
use async_gateway.Graphql.Answers.{response_error, is_success}
use async_gateway.Graphql.Answers.Judged.{is_result, is_report, has_status, response_error_lem}

split_twice : split b',' (1 ∷ b',' ∷ b',' ∷ 2 ∷ []) ≡ (1 ∷ []) ∷ [] ∷ (2 ∷ []) ∷ []
unfolding split
split_twice = refl

first_separator : partition (b'q' ∷ b'=' ∷ b'=' ∷ []) ≡ (b'q' ∷ [], some (b'=' ∷ []))
unfolding partition
first_separator = refl

abbrev digits : List ℕ → Option Bool
digits xs = quality_value xs

qualities :
    (digits (b'0' ∷ b'.' ∷ b'0' ∷ []) ≡ some false)
    × (digits (b'0' ∷ b'.' ∷ b'0' ∷ b'5' ∷ []) ≡ some true)
    × (digits (b'1' ∷ b'.' ∷ []) ≡ some true)
    × (digits (b'1' ∷ b'.' ∷ b'1' ∷ []) ≡ none)
    × (digits (b'0' ∷ b'.' ∷ b'0' ∷ b'0' ∷ b'0' ∷ b'1' ∷ []) ≡ none)
unfolding quality_value
qualities = (refl, refl, refl, refl, refl)

abbrev letters : Letters
letters = record { codec = codec; code_points = λ s. []; of_points = λ xs. "application/json" }

-- One type alone is refused, and no `Accept` at all is taken.
half_accepted :
    canonical_graphql_headers letters (("accept", "application/json") ∷ [])
    ≡ err (wrong_type "Accept")
unfolding canonical_graphql_headers normalise_media_type
half_accepted = refl

canonical :
    canonical_graphql_headers letters (("x", "y") ∷ ("content-type", "application/json") ∷ [])
    ≡ ok (("x", "y") ∷ ("Content-Type", "application/json") ∷ ("Accept", graphql_accept) ∷ [])
unfolding canonical_graphql_headers normalise_media_type put
canonical = refl

prepared :
    prepared_call plain (λ body. true) (some false) (("query", text "{a}") ∷ []) (dict end)
    ≡ ok (
      ("query", text "{a}") ∷ ("variables", dict end) ∷ [],
      ("query", text "{a}") ∷ ("request_type", text "POST") ∷ ("allow_redirects", bool false) ∷ [],
    )
unfolding prepared_call lookup put
prepared = refl

abbrev failed_field : Fields
failed_field = field "message" (text "no such field") end

-- Data next to errors, with a status that the legacy type would not explain.
abbrev partial_ : Value
partial_ = dict (field "data" none_value (field "errors" (list (cons (dict failed_field) nil)) end))

reported :
    (response_error plain 400 "application/graphql-response+json" false partial_).0
    ≡ some (graphql_error, some 400)
unfolding response_error lookup
reported = refl

response_error_lem_example :
    (is_none (response_error plain 200 "application/json" false partial_).0 ≡ (
      is_success 200
      && contains supported_media_types "application/json"
      && not false
      && is_result partial_))
    × (is_some (response_error plain 200 "application/json" false partial_).1 ≡ (
        (not (is_success 200) || contains supported_media_types "application/json")
        && not false
        && (is_result partial_ || is_report plain partial_)))
    × ((is_success 200
          || has_status 200 (response_error plain 200 "application/json" false partial_).0)
        ≡ true)
response_error_lem_example = response_error_lem plain 200 "application/json" false partial_
