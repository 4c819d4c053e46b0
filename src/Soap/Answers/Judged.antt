-- ===== src/Soap/Answers/Judged.antt =====
-- The outcome of a SOAP response of asyncio_gateway/logic/soap_client.py.
use async_gateway.Prelude.{
  ℕ, drop, String, ◌≡◌, refl, Bool, true, false, ◌&&◌, Option, none, some, List, [], ◌∷◌, ◌++◌, ltb,
  is_none, arith, All, eqb, length,
}
use async_gateway.Errors.{unsafe_xml_error, soap_fault_error}
use async_gateway.Soap.Prolog.{starts}
use async_gateway.Soap.Prolog.Refusal.{
  Noise, all_written, IsNoise, scan_prolog-unsafe, scan_prolog-root,
}
use async_gateway.Soap.Elements.{Element, element, Elements, children_of, find}
use async_gateway.Soap.Faults.{qualified}
use async_gateway.Soap.Answers.{
  Parser, SoapVersion, envelope_namespace, soap_11, soap_12, version_by_namespace, Response,
  response, read_fault, parse_soap_response, HttpResult, unread, answer,
}

-- A response that could be decoded, and whose prolog holds a declaration behind any noise, is refused
-- as unsafe XML, whatever its status is and whatever the parser would make of it: its outcome shows no
-- body and no fault.
pub answer-unsafe :
    (p : Parser) (status : ℕ) (ns : List Noise) (rest : List ℕ)
    → p.is_space b'<' ≡ false
    → All (IsNoise p.is_space) ns
    → starts (b'-' ∷ b'-' ∷ []) rest ≡ false
    → answer p (record {
      status_code = status;
      text = all_written ns ++ b'<' ∷ b'!' ∷ rest;
      decode_error = none;
    })
      ≡ unread status unsafe_xml_error
unfolding answer
answer-unsafe p status ns rest angle noise other =
    ground (arith, scan_prolog-unsafe p.is_space ns rest angle noise other)

version_by_namespace-envelope :
    (v : SoapVersion) → version_by_namespace (envelope_namespace v) ≡ some v
version_by_namespace-envelope soap_11 = refl
version_by_namespace-envelope soap_12 = refl

-- Where the response could be decoded, a fault decides the outcome at every status: behind any noise, an
-- envelope of either version whose body holds a fault is reported with the fault as it is read and the
-- status as it came.
pub answer-fault :
    (p : Parser) (status : ℕ) (ns : List Noise) (x : ℕ) (rest : List ℕ) (v : SoapVersion)
    (text : Option String) (children : Elements) (body fault : Element)
    → p.is_space b'<' ≡ false
    → All (IsNoise p.is_space) ns
    → eqb x b'!' ≡ false
    → eqb x b'?' ≡ false
    → p.from_string (drop (length (all_written ns)) (all_written ns ++ b'<' ∷ x ∷ rest))
      ≡ some (element (qualified (envelope_namespace v) "Envelope") text children)
    → find (qualified (envelope_namespace v) "Body") children ≡ some body
    → find (qualified (envelope_namespace v) "Fault") (children_of body) ≡ some fault
    → answer p (record {
      status_code = status;
      text = all_written ns ++ b'<' ∷ x ∷ rest;
      decode_error = none;
    })
      ≡ record {
        status_code = status;
        soap_body = none;
        soap_fault = some (read_fault p.reading v (envelope_namespace v) fault);
        exception = some (soap_fault_error, some status);
      }
unfolding answer
answer-fault p status ns x rest v text children body fault angle noise a b at in_body in_fault =
    ground (
      arith,
      scan_prolog-root p.is_space ns x rest angle noise a b,
      at,
      version_by_namespace-envelope v,
      in_body,
      in_fault,
    )

-- No exception and no fault.
abbrev pub is_clean : Response → Bool
is_clean (response body none) = true
is_clean _ = false

-- A response is a success exactly where it is decoded, parses without a fault and has a status below
-- 400.
pub answer-success :
    (p : Parser) (result : HttpResult)
    → is_none (answer p result).exception ≡ (
        is_none result.decode_error
        && (is_clean (parse_soap_response p result.text) && ltb result.status_code 400))
unfolding answer
answer-success p result = ground arith
