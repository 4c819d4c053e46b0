-- ===== src/Soap/Actions.antt =====
-- The version and the action of a SOAP call, and the headers that they decide
-- (asyncio_gateway/logic/soap_client.py): `validated_soap_version`, `validated_soap_action` and
-- `soap_transport_headers`. An action and the value of a header are their code points.
pub mod Quoted
use async_gateway.Prelude.{
  ℕ, String, Bool, true, false, Option, none, some, List, [], ◌∷◌, ◌++◌, ◌==◌, any, eqb,
  if◌then◌else◌,
}
use async_gateway.Values.{
  Value, none_value, text, Result, ok, err, wrong_type, bad_character, unknown_name,
}
use async_gateway.Soap.Answers.{SoapVersion, soap_11, soap_12}
use async_gateway.Soap.Requests.{codes}

unfoldable pub validated_soap_version : Value → Result SoapVersion
validated_soap_version (text s) =
    if s == "1.1"
    then ok soap_11
    else if s == "1.2"
    then ok soap_12
    else err (unknown_name "soap_version")
validated_soap_version _ = err (wrong_type "soap_version")

abbrev pub forbidden_action_chars : List ℕ
forbidden_action_chars = b'"' ∷ 13 ∷ 10 ∷ []

abbrev pub checked_action : List ℕ → Result (Option (List ℕ))
checked_action [] = ok none
checked_action (c ∷ cs) =
    if any (λ char. any (eqb char) (c ∷ cs)) forbidden_action_chars
    then err (bad_character "soap_action")
    else ok (some (c ∷ cs))

unfoldable pub validated_soap_action : Value → Result (Option (List ℕ))
validated_soap_action none_value = ok none
validated_soap_action (text s) = checked_action (codes s)
validated_soap_action _ = err (wrong_type "soap_action")

abbrev pub request_media_type : SoapVersion → List ℕ
request_media_type soap_11 = codes "text/xml"
request_media_type soap_12 = codes "application/soap+xml"

-- An action that is empty counts as none.
abbrev pub quoted_action : Option (List ℕ) → List ℕ
quoted_action none = codes "\"\""
quoted_action (some []) = codes "\"\""
quoted_action (some (c ∷ cs)) = b'"' ∷ ((c ∷ cs) ++ b'"' ∷ [])

abbrev pub action_parameter : Option (List ℕ) → List ℕ
action_parameter none = []
action_parameter (some []) = []
action_parameter (some (c ∷ cs)) = codes "; action=" ++ b'"' ∷ ((c ∷ cs) ++ b'"' ∷ [])

unfoldable pub soap_transport_headers : SoapVersion → Option (List ℕ) → List (String × List ℕ)
soap_transport_headers soap_11 action =
    ("Content-Type", request_media_type soap_11 ++ codes "; charset=utf-8")
    ∷ ("SOAPAction", quoted_action action)
    ∷ []
soap_transport_headers soap_12 action =
    (
      "Content-Type",
      request_media_type soap_12 ++ (codes "; charset=utf-8" ++ action_parameter action),
    )
    ∷ []
