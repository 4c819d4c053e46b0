-- ===== src/JsonRpc/Headers.antt =====
-- The headers of a JSON-RPC call (asyncio_gateway/logic/jsonrpc_client.py).
use async_gateway.Prelude.{
  String, false, ◌≡◌, refl, subst, sym, ap, ◌∙◌, inl, inr, Bool-cases, some, [], ◌∷◌, ◌==◌, arith,
  Dict, lookup, put, lookup-put_self, All, eq_iff,
}
use async_gateway.Values.{Result, ok, err}
use async_gateway.Values.Texts.{Texts}
use async_gateway.JsonRpc.{checked_headers, canonical_jsonrpc_headers, typed, keeping}
use async_gateway.JsonRpc.Answers.{ok_injective}

-- A header names the content type exactly where it spells it in the canonical way.
abbrev pub IsCanonical : Texts → String × String → Type 0
IsCanonical t h = (t.lower h.0 == "content-type") ≡ (h.0 == "Content-Type")

keeping-ok :
    (h : String × String) (r : Result (Dict String)) (hs : Dict String)
    → keeping h r ≡ ok hs
    → (checked : Dict String) × (r ≡ ok checked) × (hs ≡ h ∷ checked)
keeping-ok h (err e) hs k = cc
keeping-ok h (ok checked) hs k = (checked, refl, cc)

not_canonical :
    (t : Texts) (name : String)
    → t.lower "Content-Type" ≡ "content-type"
    → (t.lower name == "content-type") ≡ false
    → (name == "Content-Type") ≡ false
not_canonical t name low other = elim (Bool-cases (name == "Content-Type")) [
  | inl same ↦
      (let hit =
          (eq_iff (t.lower name) "content-type").1
            (ap t.lower ((eq_iff name "Content-Type").0 same) ∙ low) in
        ground (arith, hit, other))
  | inr differs ↦ differs
]

checked_headers-IsCanonical :
    (t : Texts) (media_type : String → String) (headers checked : Dict String)
    → t.lower "Content-Type" ≡ "content-type"
    → checked_headers t media_type headers ≡ ok checked
    → All (IsCanonical t) checked
unfolding checked_headers
checked_headers-IsCanonical t media_type [] checked low h =
    subst (All (IsCanonical t)) (ok_injective h) tt
checked_headers-IsCanonical t media_type ((name, value) ∷ headers) checked low h =
    elim (Bool-cases (t.lower name == "content-type")) [
      | inl typed_ ↦
          checked_headers-IsCanonical t media_type headers checked low (ground (arith, typed_))
      | inr other ↦
          let (rest, e, split) =
            keeping-ok (name, value) (checked_headers t media_type headers) checked
              (ground (arith, other)) in
          subst (All (IsCanonical t)) (sym split) (
            other ∙ sym (not_canonical t name low other),
            checked_headers-IsCanonical t media_type headers rest low e,
          )
    ]

put-IsCanonical :
    (t : Texts) (headers : Dict String)
    → t.lower "Content-Type" ≡ "content-type"
    → All (IsCanonical t) headers
    → All (IsCanonical t) (put "Content-Type" "application/json" headers)
unfolding put
put-IsCanonical t [] low h = ((eq_iff (t.lower "Content-Type") "content-type").1 low, tt)
put-IsCanonical t ((name, value) ∷ headers) low (h, hs) =
    elim (Bool-cases (name == "Content-Type")) [
      | inl same ↦ rw same (h, hs)
      | inr other ↦ rw other (h, put-IsCanonical t headers low hs)
    ]

typed-ok :
    (r : Result (Dict String)) (hs : Dict String)
    → typed r ≡ ok hs
    → (checked : Dict String) × (r ≡ ok checked)
      × (hs ≡ put "Content-Type" "application/json" checked)
typed-ok (err e) hs k = cc
typed-ok (ok checked) hs k = (checked, refl, cc)

-- Where `lower` turns the canonical spelling into lower case, the headers of an accepted call name the
-- content type in the canonical spelling only, and it is JSON, however many headers of the caller
-- named it.
pub canonical_jsonrpc_headers-IsCanonical :
    (t : Texts) (media_type : String → String) (headers hs : Dict String)
    → t.lower "Content-Type" ≡ "content-type"
    → canonical_jsonrpc_headers t media_type headers ≡ ok hs
    → All (IsCanonical t) hs × (lookup "Content-Type" hs ≡ some "application/json")
unfolding canonical_jsonrpc_headers
canonical_jsonrpc_headers-IsCanonical t media_type headers hs low h =
    let (checked, e, split) = typed-ok (checked_headers t media_type headers) hs h in
    (
      subst (All (IsCanonical t)) (sym split) (
          put-IsCanonical t checked low
            (checked_headers-IsCanonical t media_type headers checked low e)),
      subst (λ d. lookup "Content-Type" d ≡ some "application/json") (sym split)
          (lookup-put_self "Content-Type" "application/json" checked),
    )
