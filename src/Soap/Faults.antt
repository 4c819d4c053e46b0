-- ===== src/Soap/Faults.antt =====
-- The reading of a fault (asyncio_gateway/logic/soap_client.py) into the one shape for both versions.
-- `strip` of texts and `tostring` of elements are parameters.
use async_gateway.Prelude.{ℕ, String, false, Option, none, some, List, [], ◌∷◌, if◌then◌else◌}
use async_gateway.Soap.Elements.{
  Tag, Element, element, Elements, nil, cons, children_of, same_tag, find, findtext, exceeds_depth,
}

pub record SoapFault : Type 0 where
  pub code : String
  pub subcodes : List String
  pub reason : String
  pub actor : Option String
  pub detail : Option String

pub record Reading : Type 0 where
  pub strip : String → String
  pub to_string : Element → String

abbrev pub max_fault_detail_depth : ℕ
max_fault_detail_depth = 64

abbrev pub plain : String → Tag
plain name = record { namespace = none; local = name }

abbrev pub qualified : String → String → Tag
qualified ns name = record { namespace = some ns; local = name }

-- `(… or '').strip()`
abbrev pub stripped : Reading → Option String → String
stripped r none = r.strip ""
stripped r (some s) = r.strip s

abbrev pub optional_stripped : Reading → Option String → Option String
optional_stripped r none = none
optional_stripped r (some s) = some (r.strip s)

-- A detail that nests too far is withheld.
unfoldable pub fault_detail_text : Reading → Option Element → Option String
fault_detail_text r none = none
fault_detail_text r (some detail) = elim (exceeds_depth detail max_fault_detail_depth) [
  | some false ↦ some (r.to_string detail)
  | _ ↦ none
]

unfoldable pub fault_from_11 : Reading → Element → SoapFault
unfolding fault_detail_text
fault_from_11 r (element tag text children) = record {
  code = stripped r (findtext (plain "faultcode") children);
  subcodes = [];
  reason = stripped r (findtext (plain "faultstring") children);
  actor = optional_stripped r (findtext (plain "faultactor") children);
  detail = fault_detail_text r (find (plain "detail") children);
}

-- The loop over `Subcode` elements, from the children of the element before.
unfoldable pub subcode_chain : Reading → String → Elements → List String
subcode_chain r ns nil = []
subcode_chain r ns (cons (element tag text children) es) =
    let deeper = subcode_chain r ns children in
    let later = subcode_chain r ns es in
    if same_tag tag (qualified ns "Subcode")
    then stripped r (findtext (qualified ns "Value") children) ∷ deeper
    else later

abbrev pub below : Option Element → Elements
below none = nil
below (some e) = children_of e

abbrev pub text_in : Reading → Tag → Option Element → String
text_in r tag none = ""
text_in r tag (some e) = stripped r (findtext tag (children_of e))

unfoldable pub fault_from_12 : Reading → Element → String → SoapFault
unfolding fault_detail_text subcode_chain
fault_from_12 r (element tag text children) ns =
    let code = find (qualified ns "Code") children in
    record {
      code = text_in r (qualified ns "Value") code;
      subcodes = subcode_chain r ns (below code);
      reason = text_in r (qualified ns "Text") (find (qualified ns "Reason") children);
      actor = optional_stripped r (findtext (qualified ns "Role") children);
      detail = fault_detail_text r (find (qualified ns "Detail") children);
    }
