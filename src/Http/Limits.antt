-- ===== src/Http/Limits.antt =====
-- The verb, the bodies, the auth and the limits of a call (asyncio_gateway/logic/http_client.py, with
-- `is_get` of asyncio_gateway/helpers/internal/filters_helper.py). A mapping of download settings is
-- known by its items.
use async_gateway.Prelude.{
  ℕ, suc, String, Bool, true, false, not, ◌&&◌, ◌||◌, Option, none, some, List, [], ◌∷◌, ◌==◌, any,
  contains, eqb, if◌then◌else◌,
}
use async_gateway.Prelude.Int.{pos, negsuc}
use async_gateway.Values.{
  Value, none_value, bool, int, float, text, Result, ok, err, wrong_type, below_minimum,
  not_a_mapping, excluded, unsupported, nothing_named, value_error, truthy,
}
use async_gateway.Values.Floats.{Float, finite, infinite, nan}
use async_gateway.Values.Texts.{Parts}
use async_gateway.Redirects.{http_verbs}
use async_gateway.Http.{
  Language, Given, value, mapping, collection, basic_auth, Entry, as_mapping, as_collection,
  is_text,
}
use async_gateway.Http.Headers.{lowered_names}
use async_gateway.Settings.Checks.{float_of_nat}

-- `bool(given)`; an object of aiohttp is true.
abbrev pub is_given : Given → Bool
is_given (value v) = truthy v
is_given (mapping []) = false
is_given (collection []) = false
is_given _ = true

-- A value that is an integer and no bool.
unfoldable pub validated_max_response_bytes : Given → Result ℕ
validated_max_response_bytes (value (int (pos (suc n)))) = ok (suc n)
validated_max_response_bytes (value (int n)) = err (below_minimum "max_response_bytes")
validated_max_response_bytes _ = err (wrong_type "max_response_bytes")

-- `timeout <= 0`, which is false of what is no number.
abbrev pub at_most_zero : Float → Bool
at_most_zero (finite negative m k) = negative || eqb m 0
at_most_zero (infinite negative) = negative
at_most_zero nan = false

unfoldable pub validated_timeout : Given → Result Float
unfolding float_of_nat
validated_timeout (value (int (pos (suc n)))) = float_of_nat (suc n)
validated_timeout (value (int n)) = err (below_minimum "timeout")
validated_timeout (value (float x)) = if at_most_zero x then err (below_minimum "timeout") else ok x
validated_timeout _ = err (wrong_type "timeout")

unfoldable pub validated_allow_redirects : Given → Result Bool
validated_allow_redirects (value (bool b)) = ok b
validated_allow_redirects _ = err (wrong_type "allow_redirects")

unfoldable pub validated_max_redirects : Given → Result ℕ
validated_max_redirects (value (int (pos n))) = ok n
validated_max_redirects (value (int (negsuc n))) = err (below_minimum "max_redirects")
validated_max_redirects _ = err (wrong_type "max_redirects")

unfoldable pub is_unsupported : String → Bool
is_unsupported name = name == "" || not (contains http_verbs name)

module _ (l : Language) where
  -- The given text itself is returned, in its own spelling.
  unfoldable pub validated_request_type : Given → Result String
  validated_request_type (value (text s)) =
      if is_unsupported (l.texts.lower (l.texts.strip s))
      then err (unsupported "request_type")
      else ok s
  validated_request_type _ = err (unsupported "request_type")

  abbrev pub is_get : String → Bool
  is_get request_type = l.texts.lower (l.texts.strip request_type) == "get"

  unfoldable pub validated_upload_config : Given → String → Result Given
  validated_upload_config config request_type =
      if is_given config && is_get request_type
      then err (excluded "http_file_upload_config")
      else ok config

  abbrev pub scheme_names : Option (List Entry) → Result (List String)
  scheme_names none = err (wrong_type "allowed_schemes")
  scheme_names (some []) = err (nothing_named "allowed_schemes")
  scheme_names (some (e ∷ es)) = lowered_names l "allowed_schemes" (e ∷ es)

  unfoldable pub validated_allowed_schemes : Given → Result (List String)
  unfolding as_collection
  validated_allowed_schemes given =
      if is_text given
      then err (wrong_type "allowed_schemes")
      else scheme_names (as_collection given)

  abbrev alone : Option Parts → ℕ → Result (Option ℕ)
  alone none auth = err value_error
  alone (some parts) auth =
      if any (eqb b'@') (l.code_points parts.netloc) then err (excluded "auth") else ok (some auth)

  unfoldable pub validated_http_auth : Given → String → Result (Option ℕ)
  validated_http_auth (value none_value) url = ok none
  validated_http_auth (basic_auth auth) url = alone (l.urls.split url) auth
  validated_http_auth _ url = err (wrong_type "auth")

abbrev found : String → List (Value × Value) → Option Value
found key [] = none
found key ((text name, v) ∷ rest) =
    let later = found key rest in if name == key then some v else later
found key (_ ∷ rest) = found key rest

abbrev downloading : List (Value × Value) → Option Value → Result (Option (List (Value × Value)))
downloading config none = ok (some config)
downloading config (some none_value) = ok (some config)
downloading config (some (text s)) = ok (some config)
downloading config (some _) = err (wrong_type "download_filepath")

abbrev settings_in : Option (List (Value × Value)) → Result (Option (List (Value × Value)))
settings_in none = err (not_a_mapping "http_file_download_config")
settings_in (some config) = downloading config (found "download_filepath" config)

unfoldable pub validated_download_config : Given → Result (Option (List (Value × Value)))
unfolding as_mapping
validated_download_config (value none_value) = ok none
validated_download_config given = settings_in (as_mapping given)
