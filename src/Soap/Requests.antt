-- ===== src/Soap/Requests.antt =====
-- The envelope that a SOAP call sends (asyncio_gateway/logic/soap_client.py): `root_element_name` and
-- `build_envelope` over the code points of a text. `is_space` is the language's `str.isspace`, and
-- `tostring` that of ElementTree.
pub mod Rooted
use Prim.Native.Char.{code}
use Prim.Native.String
use async_gateway.Prelude.{
  ℕ, ◌+◌, Bool, true, false, ◌&&◌, ◌||◌, Option, none, some, List, [], ◌∷◌, ◌++◌, any, drop, eqb,
  if◌then◌else◌, String,
}
use async_gateway.Errors.{ErrorClass, unsafe_xml_error}
use async_gateway.Soap.Prolog.{Scan, root_at, no_root, unsafe, scan_prolog}
use async_gateway.Soap.Elements.{Element}
use async_gateway.Soap.Answers.{SoapVersion, soap_11, soap_12, envelope_namespace}

abbrev pub codes : String → List ℕ
codes String.[] = []
codes (String.◌∷◌ c s) = code c ∷ codes s

-- A text, or the exception of the call.
pub data Emitted : Type 0 where
  emitted : List ℕ → Emitted
  refused : ErrorClass → Emitted

abbrev pub same : List ℕ → List ℕ → Bool
same [] [] = true
same [] (y ∷ ys) = false
same (x ∷ xs) [] = false
same (x ∷ xs) (y ∷ ys) = eqb x y && same xs ys

-- `rpartition(':')[2]`
abbrev pub after_colon : List ℕ → List ℕ
after_colon [] = []
after_colon (x ∷ xs) =
    if any (eqb b':') xs then after_colon xs else if eqb x b':' then xs else x ∷ xs

-- The body of a call: a text, or an element.
pub data Body : Type 0 where
  written : List ℕ → Body
  tree : Element → Body

-- What the envelope of a body begins with, up to its namespace.
abbrev pub opening : List ℕ
opening = codes "<?xml version=\"1.0\" encoding=\"utf-8\"?><soap:Envelope xmlns:soap=\""

module _ (is_space : ℕ → Bool) where
  -- The loop over the characters of a name.
  abbrev pub name_of : List ℕ → List ℕ
  name_of [] = []
  name_of (x ∷ xs) = if is_space x || (eqb x b'>' || eqb x b'/') then [] else x ∷ name_of xs

  abbrev pub name_at : List ℕ → Option Scan → Emitted
  name_at xml_text none = emitted []
  name_at xml_text (some no_root) = emitted []
  name_at xml_text (some unsafe) = refused unsafe_xml_error
  name_at xml_text (some (root_at start)) =
      emitted (after_colon (name_of (drop (start + 1) xml_text)))

  unfoldable pub root_element_name : List ℕ → Emitted
  root_element_name xml_text = name_at xml_text (scan_prolog is_space xml_text)

module _ (is_space : ℕ → Bool) (tostring : Element → List ℕ) where
  abbrev pub body_text : Body → List ℕ
  body_text (written s) = s
  body_text (tree e) = tostring e

  abbrev pub header_text : Option Element → List ℕ
  header_text none = []
  header_text (some e) = codes "<soap:Header>" ++ (tostring e ++ codes "</soap:Header>")

  abbrev pub wrapped : SoapVersion → Option Element → List ℕ → List ℕ
  wrapped version headers body =
      opening
      ++ (codes (envelope_namespace version)
          ++ (codes "\">"
              ++ (header_text headers
                  ++ (codes "<soap:Body>" ++ (body ++ codes "</soap:Body></soap:Envelope>")))))

  abbrev pub enclosed : SoapVersion → Option Element → List ℕ → Emitted → Emitted
  enclosed version headers body (refused e) = refused e
  enclosed version headers body (emitted name) =
      if same name (codes "Envelope") then emitted body else emitted (wrapped version headers body)

  unfoldable pub build_envelope : Body → SoapVersion → Option Element → Emitted
  unfolding root_element_name
  build_envelope body version headers =
      enclosed version headers (body_text body) (root_element_name is_space (body_text body))
