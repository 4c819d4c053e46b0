-- ===== src/Http/Headers.antt =====
-- The headers, the cookies and the declared cross-origin headers of a call
-- (`validated_headers`, `validated_cookies` and `validated_cross_origin_headers` of
-- asyncio_gateway/logic/http_client.py), with the sets of asyncio_gateway/utils/constants.py.
pub mod Clean
use async_gateway.Prelude.{
  ℕ, String, Bool, not, ◌&&◌, ◌||◌, Option, none, some, List, [], ◌∷◌, ◌++◌, ◌==◌, Dict, any, all,
  contains, leb, eqb, if◌then◌else◌,
}
use async_gateway.Values.{
  Value, none_value, text, Result, ok, err, wrong_type, not_a_mapping, bad_character, credential,
  ◌>>=◌,
}
use async_gateway.Redaction.{sensitive_headers}
use async_gateway.Http.{Language, Given, value, Entry, plain, as_mapping, as_collection, is_text}

-- `FORBIDDEN_HEADER_CHARS`: 9 is the tabulator.
unfoldable pub is_forbidden_in_header : ℕ → Bool
is_forbidden_in_header c = (leb c 31 && not (eqb c 9)) || eqb c 127

-- `FORBIDDEN_COOKIE_VALUE_CHARS`
unfoldable pub is_forbidden_in_cookie : ℕ → Bool
is_forbidden_in_cookie c = leb c 31 || eqb c 127

abbrev between : ℕ → ℕ → ℕ → Bool
between low high c = leb low c && leb c high

-- `LEGAL_COOKIE_NAME_CHARS`
unfoldable pub is_legal_in_name : ℕ → Bool
is_legal_in_name c =
    between b'a' b'z' c
    || between b'A' b'Z' c
    || between b'0' b'9' c
    || any (eqb c) (
        b'!' ∷ b'#' ∷ b'$' ∷ b'%' ∷ b'&' ∷ 39 ∷ b'*' ∷ b'+' ∷ b'-' ∷ b'.' ∷ b'^' ∷ b'_' ∷ b'`'
        ∷ b'|' ∷ b'~' ∷ b':' ∷ [])

abbrev pub extra_credential_headers : List String
extra_credential_headers =
    "x-api-key" ∷ "x-auth-token" ∷ "x-amz-security-token" ∷ "api-key" ∷ "x-csrf-token"
    ∷ "x-access-token" ∷ "x-auth-key" ∷ "x-session-token" ∷ "x-functions-key" ∷ "private-token"
    ∷ "x-goog-api-key" ∷ "dd-api-key" ∷ "x-shopify-access-token" ∷ "x-vault-token"
    ∷ "authentication" ∷ []

abbrev pub credential_headers : List String
credential_headers =
    ("authorization" ∷ "cookie" ∷ "proxy-authorization" ∷ [])
    ++ extra_credential_headers
    ++ sensitive_headers

module _ (l : Language) where
  -- `_checked_header_text`
  unfoldable pub checked_header_text : String → Value → Result String
  unfolding is_forbidden_in_header
  checked_header_text setting (text s) =
      if any is_forbidden_in_header (l.code_points s) then err (bad_character setting) else ok s
  checked_header_text setting _ = err (wrong_type setting)

  -- The comprehension, in the order of the items: the name, then its value.
  unfoldable pub checked_items : String → List (Value × Value) → Result (Dict String)
  unfolding checked_header_text
  checked_items setting [] = ok []
  checked_items setting ((name, v) ∷ rest) = do
    checked_name ← checked_header_text setting name
    checked_value ← checked_header_text setting v
    checked ← checked_items setting rest
    ok ((checked_name, checked_value) ∷ checked)

  abbrev pub mapped : String → Option (List (Value × Value)) → Result (Dict String)
  mapped setting none = err (not_a_mapping setting)
  mapped setting (some kvs) = checked_items setting kvs

  unfoldable pub validated_headers : String → Given → Result (Dict String)
  unfolding checked_items as_mapping
  validated_headers setting (value none_value) = ok []
  validated_headers setting headers = mapped setting (as_mapping headers)

  -- One cookie: its name is a token, its value has no control character.
  unfoldable pub checked_cookie : Value → Value → Result (String × String)
  unfolding is_legal_in_name is_forbidden_in_cookie
  checked_cookie (text name) (text v) =
      if name == "" || not (all is_legal_in_name (l.code_points name))
      then err (bad_character "cookies")
      else if any is_forbidden_in_cookie (l.code_points v)
      then err (bad_character "cookies")
      else ok (name, v)
  checked_cookie _ _ = err (wrong_type "cookies")

  unfoldable pub checked_cookies : List (Value × Value) → Result (Dict String)
  unfolding checked_cookie
  checked_cookies [] = ok []
  checked_cookies ((name, v) ∷ rest) = do
    cookie ← checked_cookie name v
    checked ← checked_cookies rest
    ok (cookie ∷ checked)

  abbrev pub jar : Option (List (Value × Value)) → Result (Option (Dict String))
  jar none = err (not_a_mapping "cookies")
  jar (some kvs) = do checked ← checked_cookies kvs; ok (some checked)

  unfoldable pub validated_cookies : Given → Result (Option (Dict String))
  unfolding checked_cookies as_mapping
  validated_cookies (value none_value) = ok none
  validated_cookies cookies = jar (as_mapping cookies)

  -- The names of a collection, in lower case; anything but a text in it is refused.
  unfoldable pub lowered_names : String → List Entry → Result (List String)
  lowered_names setting [] = ok []
  lowered_names setting (plain (text s) ∷ rest) = do
    names ← lowered_names setting rest
    ok (l.texts.lower s ∷ names)
  lowered_names setting (_ ∷ rest) = err (wrong_type setting)

  abbrev named : String → Option (List Entry) → Result (List String)
  named setting none = err (wrong_type setting)
  named setting (some entries) = lowered_names setting entries

  abbrev pub without_credentials : List String → Result (List String)
  without_credentials names =
      if any (contains credential_headers) names
      then err (credential "cross_origin_headers")
      else ok names

  unfoldable pub validated_cross_origin_headers : Given → Result (List String)
  unfolding lowered_names as_collection
  validated_cross_origin_headers (value none_value) = ok []
  validated_cross_origin_headers given =
      if is_text given then err (wrong_type "cross_origin_headers") else (do
        names ← named "cross_origin_headers" (as_collection given)
        without_credentials names)
