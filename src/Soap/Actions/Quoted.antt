-- ===== src/Soap/Actions/Quoted.antt =====
-- What a recipient reads of the action that a SOAP call sends
-- (asyncio_gateway/logic/soap_client.py).
use async_gateway.Prelude.{
  ℕ, ◌≡◌, refl, subst, String, Bool, true, false, ◌||◌, Option, none, some, List, [], ◌∷◌, ◌++◌,
  any, eqb, All, arith, if◌then◌else◌,
}
use async_gateway.Values.{
  Value, none_value, bool, int, float, text, bytes, list, dict, function, exception_class, object,
  ok, err, bad_character,
}
use async_gateway.Values.Checked.{ok_injective}
use async_gateway.Soap.Answers.{SoapVersion, soap_11, soap_12}
use async_gateway.Soap.Requests.{codes}
use async_gateway.Soap.Actions.{checked_action, validated_soap_action, soap_transport_headers}

abbrev pub is_line_break : ℕ → Bool
is_line_break c = eqb 13 c || eqb 10 c

-- The text up to the next quotation mark, and what follows that.
abbrev pub until_quote : List ℕ → Option (List ℕ × List ℕ)
until_quote [] = none
until_quote (x ∷ xs) =
    if eqb b'"' x
    then some ([], xs)
    else elim (until_quote xs) [ none ↦ none | some (quoted, rest) ↦ some (x ∷ quoted, rest) ]

-- The first quoted string of a header's value, and what follows it.
abbrev pub quoted_in : List ℕ → Option (List ℕ × List ℕ)
quoted_in [] = none
quoted_in (x ∷ xs) = if eqb b'"' x then until_quote xs else quoted_in xs

-- The value of the last header, which carries the action.
abbrev pub last_value : List (String × List ℕ) → List ℕ
last_value [] = []
last_value ((name, value) ∷ []) = value
last_value ((name, value) ∷ (h ∷ hs)) = last_value (h ∷ hs)

abbrev pub IsOneLine : String × List ℕ → Type 0
IsOneLine header = any is_line_break header.1 ≡ false

until_quote_lem :
    (xs : List ℕ) → any (eqb b'"') xs ≡ false → until_quote (xs ++ b'"' ∷ []) ≡ some (xs, [])
until_quote_lem [] h = refl
until_quote_lem (x ∷ xs) h = ground (arith, h, until_quote_lem xs)

breaks_append :
    (xs ys : List ℕ)
    → any is_line_break xs ≡ false
    → any is_line_break ys ≡ false
    → any is_line_break (xs ++ ys) ≡ false
breaks_append [] ys h k = k
breaks_append (x ∷ xs) ys h k = ground (arith, h, breaks_append xs ys)

breaks_split :
    (xs : List ℕ) → any (eqb 13) xs ≡ false → any (eqb 10) xs ≡ false → any is_line_break xs ≡ false
breaks_split [] h k = refl
breaks_split (x ∷ xs) h k = ground (arith, h, k, breaks_split xs)

abbrev IsSafe : Option (List ℕ) → Type 0
IsSafe none = Unit
IsSafe (some []) = ⊥
IsSafe (some (c ∷ cs)) = (any (eqb b'"') (c ∷ cs) ≡ false) × (any is_line_break (c ∷ cs) ≡ false)

unforbidden :
    (p q r : Bool) (xs : List ℕ) (action : Option (List ℕ))
    → (if p || (q || (r || false)) then err (bad_character "soap_action") else ok (some xs))
      ≡ ok action
    → (p ≡ false) × (q ≡ false) × (r ≡ false) × (some xs ≡ action)
unforbidden false false false xs action h = (refl, refl, refl, ok_injective h)
unforbidden true q r xs action h = cc
unforbidden false true r xs action h = cc
unforbidden false false true xs action h = cc

checked_action-IsSafe :
    (cs : List ℕ) (action : Option (List ℕ)) → checked_action cs ≡ ok action → IsSafe action
checked_action-IsSafe [] action h = subst IsSafe (ok_injective h) tt
checked_action-IsSafe (c ∷ cs) action h =
    let (quote, carriage, line, same) =
      unforbidden (any (eqb b'"') (c ∷ cs)) (any (eqb 13) (c ∷ cs)) (any (eqb 10) (c ∷ cs)) (c ∷ cs)
        action h in
    subst IsSafe same (quote, breaks_split (c ∷ cs) carriage line)

validated_soap_action-IsSafe :
    (v : Value) (action : Option (List ℕ)) → validated_soap_action v ≡ ok action → IsSafe action
unfolding validated_soap_action
validated_soap_action-IsSafe none_value action h = subst IsSafe (ok_injective h) tt
validated_soap_action-IsSafe (text s) action h = checked_action-IsSafe (codes s) action h
validated_soap_action-IsSafe (bool b) action h = cc
validated_soap_action-IsSafe (int n) action h = cc
validated_soap_action-IsSafe (float x) action h = cc
validated_soap_action-IsSafe (bytes b) action h = cc
validated_soap_action-IsSafe (list vs) action h = cc
validated_soap_action-IsSafe (dict fs) action h = cc
validated_soap_action-IsSafe (function f) action h = cc
validated_soap_action-IsSafe (exception_class e) action h = cc
validated_soap_action-IsSafe (object o) action h = cc

-- What a recipient is to read: 1.1 sends a quoted string even where no action is named.
abbrev pub expected : SoapVersion → Option (List ℕ) → Option (List ℕ × List ℕ)
expected soap_11 none = some ([], [])
expected soap_12 none = none
expected version (some action) = some (action, [])

abbrev pub IsQuoted : SoapVersion → Option (List ℕ) → List (String × List ℕ) → Type 0
IsQuoted version action headers =
    All IsOneLine headers × (quoted_in (last_value headers) ≡ expected version action)

soap_transport_headers-IsQuoted :
    (version : SoapVersion) (action : Option (List ℕ))
    → IsSafe action
    → IsQuoted version action (soap_transport_headers version action)
unfolding soap_transport_headers
soap_transport_headers-IsQuoted soap_11 none safe = ((refl, (refl, tt)), refl)
soap_transport_headers-IsQuoted soap_12 none safe = ((refl, tt), refl)
soap_transport_headers-IsQuoted soap_11 (some []) safe = absurd safe
soap_transport_headers-IsQuoted soap_12 (some []) safe = absurd safe
soap_transport_headers-IsQuoted soap_11 (some (c ∷ cs)) (quote, line) =
    ((refl, (breaks_append (c ∷ cs) (b'"' ∷ []) line refl, tt)), until_quote_lem (c ∷ cs) quote)
soap_transport_headers-IsQuoted soap_12 (some (c ∷ cs)) (quote, line) =
    ((breaks_append (c ∷ cs) (b'"' ∷ []) line refl, tt), until_quote_lem (c ∷ cs) quote)

-- The headers of an action that is accepted have no line break in a value, and the first quoted
-- string of the header that carries it reads as the action, with nothing after it; where none is
-- named, 1.1 sends an empty quoted string and 1.2 none.
pub validated_soap_action-IsQuoted :
    (v : Value) (version : SoapVersion) (action : Option (List ℕ))
    → validated_soap_action v ≡ ok action
    → IsQuoted version action (soap_transport_headers version action)
validated_soap_action-IsQuoted v version action h =
    soap_transport_headers-IsQuoted version action (validated_soap_action-IsSafe v action h)
