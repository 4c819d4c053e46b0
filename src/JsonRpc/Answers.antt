-- ===== src/JsonRpc/Answers.antt =====
-- Requests and their answers (asyncio_gateway/logic/jsonrpc_client.py).
use async_gateway.Prelude.{
  sym, ℕ, String, Bool, true, false, not, ◌&&◌, ◌≡◌, refl, ap, subst, Bool-cases, inl, inr, Option,
  none, some, [], ◌∷◌, arith, Dict, lookup, has_key, is_some, is_none, leb, eq_iff, eq_refl,
}
use async_gateway.Prelude.Int.{eqb_ℤ_iff}
use async_gateway.Values.{
  Value, none_value, bool, float, bytes, list, function, exception_class, object, text, int, dict,
  field, end, Fields, fields, ok,
}
use async_gateway.JsonRpc.{
  validated_jsonrpc_id, build_jsonrpc_request, Answer, accepted, protocol_error, same_id, chosen,
  identified, error_answer, is_text, validated_jsonrpc_response, response_error,
  http_response_error, answered,
}

-- The answer that a peer makes to a request with this id.
abbrev pub reply : Value → Value → Value
reply request_id result =
    dict (field "jsonrpc" (text "2.0") (field "result" result (field "id" request_id end)))

same_id-eq : (a b : Value) → same_id a b ≡ true → a ≡ b
same_id-eq (text s) (text r) h = ap text ((eq_iff s r).0 h)
same_id-eq (int m) (int n) h = ap int ((eqb_ℤ_iff m n).0 h)
same_id-eq (text s) none_value h = cc
same_id-eq (text s) (bool q) h = cc
same_id-eq (text s) (int n) h = cc
same_id-eq (text s) (float x) h = cc
same_id-eq (text s) (bytes c) h = cc
same_id-eq (text s) (list l) h = cc
same_id-eq (text s) (dict d) h = cc
same_id-eq (text s) (function f) h = cc
same_id-eq (text s) (exception_class c) h = cc
same_id-eq (text s) (object o) h = cc
same_id-eq (int m) none_value h = cc
same_id-eq (int m) (bool q) h = cc
same_id-eq (int m) (float x) h = cc
same_id-eq (int m) (text r) h = cc
same_id-eq (int m) (bytes c) h = cc
same_id-eq (int m) (list l) h = cc
same_id-eq (int m) (dict d) h = cc
same_id-eq (int m) (function f) h = cc
same_id-eq (int m) (exception_class c) h = cc
same_id-eq (int m) (object o) h = cc
same_id-eq none_value b h = cc
same_id-eq (bool q) b h = cc
same_id-eq (float x) b h = cc
same_id-eq (bytes c) b h = cc
same_id-eq (list l) b h = cc
same_id-eq (dict d) b h = cc
same_id-eq (function f) b h = cc
same_id-eq (exception_class c) b h = cc
same_id-eq (object o) b h = cc

pub ok_injective {ℓ} : {A : Type ℓ} {a b : A} → ok a ≡ ok b → a ≡ b
ok_injective h = cc

same_id-validated :
    (v request_id : Value)
    → validated_jsonrpc_id v ≡ ok request_id
    → (v ≡ request_id) × (same_id request_id request_id ≡ true)
unfolding validated_jsonrpc_id
same_id-validated (text s) request_id h =
    (ok_injective h, subst (λ x. same_id x x ≡ true) (ok_injective h) (eq_refl s))
same_id-validated (int n) request_id h = (ground arith, ground (arith, eqb_ℤ_iff n n))
same_id-validated none_value request_id h = cc
same_id-validated (bool q) request_id h = cc
same_id-validated (float x) request_id h = cc
same_id-validated (bytes c) request_id h = cc
same_id-validated (list l) request_id h = cc
same_id-validated (dict d) request_id h = cc
same_id-validated (function f) request_id h = cc
same_id-validated (exception_class c) request_id h = cc
same_id-validated (object o) request_id h = cc

-- The body has this id, and the peer's result under it is accepted as it is, where `request_id` is
-- what was sent.
abbrev pub IsEchoed : Dict Value → Value → Value → Value → Type 0
IsEchoed body result request_id v =
    (lookup "id" body ≡ some v)
    × (validated_jsonrpc_response (reply v result) request_id
        ≡ accepted (("id", v) ∷ ("result", result) ∷ []) false)

-- A request that is built has the caller's own id, and the peer's result under that id is accepted as
-- it is.
pub validated_jsonrpc_response-reply :
    (encodes : Dict Value → Bool) (method : String) (v request_id result : Value)
    (params : Option Value) (body : Dict Value)
    → validated_jsonrpc_id v ≡ ok request_id
    → build_jsonrpc_request encodes method request_id params ≡ ok body
    → IsEchoed body result request_id v
unfolding build_jsonrpc_request validated_jsonrpc_response lookup
validated_jsonrpc_response-reply encodes method v request_id result params body valid built =
    let (same, kept) = same_id-validated v request_id valid in
    subst (IsEchoed body result request_id) (sym same)
      (ground arith, rw (kept, validated_jsonrpc_response) refl)

-- What an accepted answer is.
abbrev pub IsAnswer : Value → Bool → Dict Value → Type 0
IsAnswer expected is_error body =
    (lookup "jsonrpc" body ≡ some (text "2.0"))
    × (lookup "id" body ≡ some expected)
    × (has_key "result" body ≡ not is_error)
    × (has_key "error" body ≡ is_error)

is_text-eq : (s : String) (o : Option Value) → is_text s o ≡ true → o ≡ some (text s)
is_text-eq s (some (text r)) h = ap (λ x. some (text x)) ((eq_iff r s).0 h)
is_text-eq s none h = cc
is_text-eq s (some none_value) h = cc
is_text-eq s (some (bool q)) h = cc
is_text-eq s (some (int n)) h = cc
is_text-eq s (some (float x)) h = cc
is_text-eq s (some (bytes c)) h = cc
is_text-eq s (some (list l)) h = cc
is_text-eq s (some (dict d)) h = cc
is_text-eq s (some (function f)) h = cc
is_text-eq s (some (exception_class c)) h = cc
is_text-eq s (some (object o)) h = cc

error_answer-is_error :
    (peer_id error : Value) (details : Dict Value) (is_error : Bool)
    → error_answer peer_id error ≡ accepted details is_error
    → is_error ≡ true
error_answer-is_error peer_id error details is_error h = ground arith

chosen-accepted :
    (peer_id : Value) (result error : Option Value) (details : Dict Value) (is_error : Bool)
    → chosen peer_id result error ≡ accepted details is_error
    → (is_some result ≡ not is_error) × (is_some error ≡ is_error)
chosen-accepted peer_id none none details is_error h = cc
chosen-accepted peer_id (some r) (some e) details is_error h = cc
chosen-accepted peer_id (some r) none details is_error h = ground arith
chosen-accepted peer_id none (some e) details is_error h =
    ground (arith, error_answer-is_error peer_id e details is_error)

identified-accepted :
    (body : Dict Value) (expected : Value) (o : Option Value) (details : Dict Value)
    (is_error : Bool)
    → identified body expected o ≡ accepted details is_error
    → (o ≡ some expected)
      × (has_key "result" body ≡ not is_error)
      × (has_key "error" body ≡ is_error)
unfolding has_key
identified-accepted body expected none details is_error h = cc
identified-accepted body expected (some peer_id) details is_error h =
    elim (Bool-cases (same_id peer_id expected)) [
      | inl same ↦
          let kept =
            chosen-accepted peer_id (lookup "result" body) (lookup "error" body) details is_error
              (ground (arith, same)) in
          (ap some (same_id-eq peer_id expected same), kept.0, kept.1)
      | inr other ↦ ground (arith, other)
    ]

-- An answer that is accepted is an object that declares version 2.0, has the id that was sent, and
-- has exactly one of a result and an error, as the flag says.
pub validated_jsonrpc_response-IsAnswer :
    (answer expected : Value) (details : Dict Value) (is_error : Bool)
    → validated_jsonrpc_response answer expected ≡ accepted details is_error
    → (fs : Fields) × (answer ≡ dict fs) × IsAnswer expected is_error (fields fs)
unfolding validated_jsonrpc_response
validated_jsonrpc_response-IsAnswer (dict fs) expected details is_error h =
    elim (Bool-cases (is_text "2.0" (lookup "jsonrpc" (fields fs)))) [
      | inl version ↦
          let kept =
            identified-accepted (fields fs) expected (lookup "id" (fields fs)) details is_error
              (ground (arith, version)) in
          (
            fs,
            refl,
            (is_text-eq "2.0" (lookup "jsonrpc" (fields fs)) version, kept.0, kept.1, kept.2),
          )
      | inr other ↦ ground (arith, other)
    ]
validated_jsonrpc_response-IsAnswer none_value expected details is_error h = cc
validated_jsonrpc_response-IsAnswer (bool q) expected details is_error h = cc
validated_jsonrpc_response-IsAnswer (int n) expected details is_error h = cc
validated_jsonrpc_response-IsAnswer (float x) expected details is_error h = cc
validated_jsonrpc_response-IsAnswer (text r) expected details is_error h = cc
validated_jsonrpc_response-IsAnswer (bytes c) expected details is_error h = cc
validated_jsonrpc_response-IsAnswer (list l) expected details is_error h = cc
validated_jsonrpc_response-IsAnswer (function f) expected details is_error h = cc
validated_jsonrpc_response-IsAnswer (exception_class c) expected details is_error h = cc
validated_jsonrpc_response-IsAnswer (object o) expected details is_error h = cc

abbrev pub is_result : Answer → Bool
is_result (accepted details is_error) = not is_error
is_result protocol_error = false

-- A call reports no error exactly where its body was decoded, its HTTP status is below 400, and the
-- answer is an accepted result.
pub response_error-is_none :
    (status : ℕ) (malformed : Bool) (body expected : Value)
    → is_none (response_error status malformed body expected).0 ≡ (
        not malformed
        && not (leb 400 status)
        && is_result (validated_jsonrpc_response body expected))
unfolding response_error http_response_error
response_error-is_none status true body expected = ground arith
response_error-is_none status false body expected = go (validated_jsonrpc_response body expected)
  where
    go : (a : Answer) → is_none (answered status a).0 ≡ (not (leb 400 status) && is_result a)
    go protocol_error = ground arith
    go (accepted details is_error) = ground arith
