-- ===== src/Tests/Soap.antt =====
-- The SOAP client of asyncio_gateway/logic/soap_client.py at concrete documents.
use async_gateway.Soap.Elements.{find}
use async_gateway.Soap.Elements.{findtext}
use async_gateway.Prelude.{
  ℕ, Option, String, ◌≡◌, refl, true, Bool, none, some, List, [], ◌∷◌, ◌++◌, eqb,
}
use async_gateway.Errors.{unsafe_xml_error, soap_fault_error}
use async_gateway.Soap.Prolog.{scan_prolog, root_at, unsafe}
use async_gateway.Soap.Prolog.Refusal.{Noise, blank, instruction, comment, all_written}
use async_gateway.Soap.Elements.{Element, element, nil, cons, exceeds_depth}
use async_gateway.Soap.Elements.Depth.{levels, exceeds_depth_lem}
use async_gateway.Soap.Faults.{plain, qualified, fault_from_11}
use async_gateway.Soap.Answers.{
  Parser, SoapVersion, soap_11, soap_12, envelope_namespace, read_fault, HttpResult, answer, unread,
}
use async_gateway.Values.{text, ok, err, bad_character}
use async_gateway.Soap.Requests.{
  codes, emitted, written, root_element_name, wrapped, build_envelope,
}
use async_gateway.Soap.Requests.Rooted.{ascii_space, IsRooted, build_envelope-IsRooted}
use async_gateway.Soap.Actions.{validated_soap_action, soap_transport_headers}
use async_gateway.Soap.Actions.Quoted.{IsQuoted, validated_soap_action-IsQuoted}
use async_gateway.Soap.Answers.Judged.{answer-unsafe, answer-fault}

abbrev is_space : ℕ → Bool
is_space c = eqb c b' '

-- A declaration, white space and a comment with a bracket in it.
abbrev noise : List Noise
noise = instruction (b'x' ∷ b'm' ∷ b'l' ∷ []) ∷ blank b' ' ∷ comment (b'<' ∷ b'-' ∷ b'>' ∷ []) ∷ []

abbrev leaf : String → String → Element
leaf name value = element (plain name) (some value) nil

abbrev fault : Element
fault =
    element (qualified (envelope_namespace soap_11) "Fault") none
      (cons (leaf "faultcode" "soap:Server") (cons (leaf "faultstring" "down") nil))

abbrev body : Element
body = element (qualified (envelope_namespace soap_11) "Body") none (cons fault nil)

abbrev envelope : Element
envelope = element (qualified (envelope_namespace soap_11) "Envelope") none (cons body nil)

abbrev parser : Parser
parser = record {
  is_space = is_space;
  from_string = λ xs. some envelope;
  reading = record { strip = λ s. s; to_string = λ e. "" };
}

doctype : scan_prolog is_space (all_written noise ++ b'<' ∷ b'!' ∷ b'd' ∷ []) ≡ some unsafe
unfolding scan_prolog
doctype = refl

offset : scan_prolog is_space (all_written noise ++ b'<' ∷ b'a' ∷ []) ≡ some (root_at 18)
unfolding scan_prolog
offset = refl

answer-unsafe_example :
    answer parser (record {
      status_code = 200;
      text = all_written noise ++ b'<' ∷ b'!' ∷ b'd' ∷ [];
      decode_error = none;
    })
    ≡ unread 200 unsafe_xml_error
answer-unsafe_example =
    answer-unsafe parser 200 noise (b'd' ∷ []) refl (refl, (refl, (refl, tt))) refl

answer-fault_example :
    answer parser (record {
      status_code = 200;
      text = all_written noise ++ b'<' ∷ b'a' ∷ [];
      decode_error = none;
    })
    ≡ record {
      status_code = 200;
      soap_body = none;
      soap_fault = some (read_fault parser.reading soap_11 (envelope_namespace soap_11) fault);
      exception = some (soap_fault_error, some 200);
    }
unfolding find
answer-fault_example =
    answer-fault parser 200 noise b'a' [] soap_11 none (cons body nil) body fault refl
      (refl, (refl, (refl, tt))) refl refl refl refl refl

fault_read :
    read_fault parser.reading soap_11 (envelope_namespace soap_11) fault
    ≡ record { code = "soap:Server"; subcodes = []; reason = "down"; actor = none; detail = none }
unfolding fault_from_11 findtext find
fault_read = refl

abbrev plain_answer : HttpResult
plain_answer = record { status_code = 500; text = []; decode_error = none }

exceeds_depth_lem_example : exceeds_depth envelope 3 ≡ some true
unfolding levels
exceeds_depth_lem_example = exceeds_depth_lem envelope 3

-- A body that is not an envelope, and one that is.
abbrev order : List ℕ
order = codes "<!-- an order --><m:Order id=\"1\"/>"

abbrev trace : Element
trace = leaf "Trace" "7"

abbrev ready_made : List ℕ
ready_made = codes "<s:Envelope><s:Body/></s:Envelope>"

root_named : root_element_name ascii_space order ≡ emitted (codes "Order")
unfolding root_element_name scan_prolog
root_named = refl

sent_as_it_is :
    build_envelope ascii_space
      (λ e. codes "<Trace>7</Trace>")
      (written ready_made)
      soap_12
      (some trace)
    ≡ emitted ready_made
unfolding build_envelope scan_prolog
sent_as_it_is = refl

abbrev enclosed_order : List ℕ
enclosed_order = wrapped ascii_space (λ e. codes "<Trace>7</Trace>") soap_12 (some trace) order

order_sent :
    build_envelope ascii_space (λ e. codes "<Trace>7</Trace>") (written order) soap_12 (some trace)
    ≡ emitted enclosed_order
unfolding build_envelope scan_prolog
order_sent = refl

build_envelope-IsRooted_example :
    IsRooted ascii_space enclosed_order
    × ((other : SoapVersion) (block : Option Element)
        → build_envelope ascii_space
            (λ e. codes "<Trace>7</Trace>")
            (written enclosed_order)
            other
            block
          ≡ emitted enclosed_order)
build_envelope-IsRooted_example =
    build_envelope-IsRooted ascii_space (λ c low. refl) (λ e. codes "<Trace>7</Trace>")
      (written order) soap_12 (some trace) enclosed_order order_sent

injecting : validated_soap_action (text "a\"b") ≡ err (bad_character "soap_action")
unfolding validated_soap_action
injecting = refl

action_accepted : validated_soap_action (text "urn:Get") ≡ ok (some (codes "urn:Get"))
unfolding validated_soap_action
action_accepted = refl

validated_soap_action-IsQuoted_example :
    IsQuoted soap_12
      (some (codes "urn:Get"))
      (soap_transport_headers soap_12 (some (codes "urn:Get")))
validated_soap_action-IsQuoted_example =
    validated_soap_action-IsQuoted (text "urn:Get") soap_12 (some (codes "urn:Get")) action_accepted
