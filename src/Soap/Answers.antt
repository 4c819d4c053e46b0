-- ===== src/Soap/Answers.antt =====
-- How a SOAP response is judged (asyncio_gateway/logic/soap_client.py): `parse_document`,
-- `parse_soap_response` and `_answer`. The parser `fromstring` is a parameter, where `none` is its
-- `ParseError`.
pub mod Judged
use async_gateway.Prelude.{
  ℕ, drop, take, length-drop, String, Bool, true, false, not, ◌&&◌, Option, none, some, List, [],
  ◌∷◌, leb, ◌==◌, if◌then◌else◌, is_none,
}
use async_gateway.Errors.{
  ErrorClass, serialization_error, unsafe_xml_error, soap_fault_error, http_status_error,
}
use async_gateway.Soap.Prolog.{Scan, root_at, no_root, unsafe, scan_prolog}
use async_gateway.Soap.Elements.{
  Tag, Element, element, Elements, nil, cons, tag_of, children_of, find,
}
use async_gateway.Soap.Faults.{SoapFault, Reading, qualified, fault_from_11, fault_from_12}

pub record Parser : Type 0 where
  pub is_space : ℕ → Bool
  pub from_string : List ℕ → Option Element
  pub reading : Reading

pub data SoapVersion : Type 0 where
  soap_11 soap_12 : SoapVersion

abbrev pub envelope_namespace : SoapVersion → String
envelope_namespace soap_11 = "http://schemas.xmlsoap.org/soap/envelope/"
envelope_namespace soap_12 = "http://www.w3.org/2003/05/soap-envelope"

-- `VERSION_BY_NAMESPACE.get`
abbrev pub version_by_namespace : String → Option SoapVersion
version_by_namespace ns =
    if ns == envelope_namespace soap_11
    then some soap_11
    else if ns == envelope_namespace soap_12
    then some soap_12
    else none

pub data Document : Type 0 where
  no_element : Document
  parsed : Element → Document
  refused : ErrorClass → Document

unfoldable pub parse_document : Parser → List ℕ → Document
parse_document p xml_text = elim (scan_prolog p.is_space xml_text) [
  | none ↦ no_element
  | some no_root ↦ no_element
  | some unsafe ↦ refused unsafe_xml_error
  | some (root_at start) ↦ elim (p.from_string (drop start xml_text)) [
    | none ↦ refused serialization_error
    | some root ↦ parsed root
  ]
]

-- The body's element and the fault, or the exception.
pub data Response : Type 0 where
  response : Option Element → Option SoapFault → Response
  failure : ErrorClass → Response

abbrev pub first_element_child : Elements → Option Element
first_element_child nil = none
first_element_child (cons e es) = some e

abbrev pub read_fault : Reading → SoapVersion → String → Element → SoapFault
read_fault r soap_11 ns fault = fault_from_11 r fault
read_fault r soap_12 ns fault = fault_from_12 r fault ns

-- From the root of an envelope of a known version.
unfoldable pub read_envelope : Reading → SoapVersion → String → Elements → Response
read_envelope r version ns children = elim (find (qualified ns "Body") children) [
  | none ↦ response none none
  | some body ↦ elim (find (qualified ns "Fault") (children_of body)) [
    | some fault ↦ response none (some (read_fault r version ns fault))
    | none ↦ response (first_element_child (children_of body)) none
  ]
]

-- The check of the root's tag; a root without a namespace is no envelope.
unfoldable pub read_root : Reading → Element → Response
unfolding read_envelope
read_root r (element tag text children) = elim tag.namespace [
  | none ↦ failure serialization_error
  | some ns ↦ elim (version_by_namespace ns) [
    | none ↦ failure serialization_error
    | some version ↦
        if tag.local == "Envelope"
        then read_envelope r version ns children
        else failure serialization_error
  ]
]

unfoldable pub parse_soap_response : Parser → List ℕ → Response
unfolding parse_document read_root
parse_soap_response p raw = elim (parse_document p raw) [
  | no_element ↦ response none none
  | refused c ↦ failure c
  | parsed root ↦ read_root p.reading root
]

-- `HttpResult`, as far as it is judged here.
pub record HttpResult : Type 0 where
  pub status_code : ℕ
  pub text : List ℕ
  pub decode_error : Option String

-- What `_answer` leaves in the envelope, and the exception that it raises with its status, if any.
pub record Judgement : Type 0 where
  pub status_code : ℕ
  pub soap_body : Option Element
  pub soap_fault : Option SoapFault
  pub exception : Option (ErrorClass × Option ℕ)

abbrev pub http_error_status : ℕ
http_error_status = 400

abbrev pub judged : ℕ → Option Element → Option SoapFault → Judgement
judged status body (some fault) = record {
  status_code = status;
  soap_body = body;
  soap_fault = some fault;
  exception = some (soap_fault_error, some status);
}
judged status body none = record {
  status_code = status;
  soap_body = body;
  soap_fault = none;
  exception = if leb http_error_status status then some (http_status_error, some status) else none;
}

abbrev pub unread : ℕ → ErrorClass → Judgement
unread status c = record {
  status_code = status;
  soap_body = none;
  soap_fault = none;
  exception = some (c, none);
}

unfoldable pub answer : Parser → HttpResult → Judgement
unfolding parse_soap_response
answer p result = elim result.decode_error [
  | some e ↦ unread result.status_code serialization_error
  | none ↦ elim (parse_soap_response p result.text) [
    | failure c ↦ unread result.status_code c
    | response body fault ↦ judged result.status_code body fault
  ]
]
