-- ===== src/Tests/JsonRpc.antt =====
-- asyncio_gateway/logic/jsonrpc_client.py at concrete inputs.
use async_gateway.Prelude.{put}
use async_gateway.Prelude.{
  ◌≡◌, refl, true, false, none, some, String, [], ◌∷◌, Dict, lookup, ◌==◌, if◌then◌else◌,
}
use async_gateway.Prelude.Int.{pos}
use async_gateway.Values.{Value, int, text, bool, ok}
use async_gateway.Values.Texts.{Texts}
use async_gateway.JsonRpc.{
  validated_jsonrpc_id, build_jsonrpc_request, validated_jsonrpc_response, accepted,
  canonical_jsonrpc_headers,
}
use async_gateway.JsonRpc.Answers.{reply, is_result, validated_jsonrpc_response-reply}

seven_valid : validated_jsonrpc_id (int (pos 7)) ≡ ok (int (pos 7))
unfolding validated_jsonrpc_id
seven_valid = refl

abbrev body : Dict Value
body = ("jsonrpc", text "2.0") ∷ ("method", text "sum") ∷ ("id", int (pos 7)) ∷ []

body_built : build_jsonrpc_request (λ b. true) "sum" (int (pos 7)) none ≡ ok body
unfolding build_jsonrpc_request
body_built = refl

validated_jsonrpc_response-reply_example :
    (lookup "id" body ≡ some (int (pos 7)))
    × (validated_jsonrpc_response (reply (int (pos 7)) (bool true)) (int (pos 7))
        ≡ accepted (("id", int (pos 7)) ∷ ("result", bool true) ∷ []) false)
validated_jsonrpc_response-reply_example =
    validated_jsonrpc_response-reply (λ b. true) "sum" (int (pos 7)) (int (pos 7)) (bool true) none
      body seven_valid body_built

-- A boolean is not the number that it equals in the language.
true_is_not_one :
    is_result (validated_jsonrpc_response (reply (bool true) (bool true)) (int (pos 1))) ≡ false
unfolding validated_jsonrpc_response lookup
true_is_not_one = refl

abbrev to_lower : String → String
to_lower s = if s == "Content-Type" then "content-type" else s

abbrev lowering : Texts
lowering = record { lower = to_lower; upper = λ s. s; strip = λ s. s }

abbrev sent : Dict String
sent =
    ("content-type", "application/json") ∷ ("x-id", "1") ∷ ("Content-Type", "application/json") ∷ []

abbrev canonical : Dict String
canonical = ("x-id", "1") ∷ ("Content-Type", "application/json") ∷ []

sent-canonical : canonical_jsonrpc_headers lowering (λ s. s) sent ≡ ok canonical
unfolding canonical_jsonrpc_headers put
sent-canonical = refl
