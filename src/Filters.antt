-- ===== src/Filters.antt =====
-- What a request carries (asyncio_gateway/helpers/internal/filters_helper.py) and the choice of its
-- filter by the media type (asyncio_gateway/helpers/internal/__init__.py). `orjson`, the printing of
-- values and the methods of texts are parameters. A value has no tuple apart from its lists, and dates
-- are objects.
pub mod Bodies
use async_gateway.Prelude.{
  String, Bool, true, false, not, ◌||◌, Option, some, none, List, [], ◌∷◌, ◌++◌, ◌==◌, contains,
  Dict, if◌then◌else◌,
}
use async_gateway.Values.{
  Value, none_value, bool, int, float, text, bytes, list, dict, function, exception_class, object,
  Values, nil, cons, Fields, end, field, Refusal, bad_encoding, type_error, attribute_error, Result,
  ok, err, ◌>>=◌,
}
use async_gateway.Values.Texts.{Texts}

-- `head` is `split(';', 1)[0]`, `dumps` is `orjson.dumps(value).decode()`, where `none` is its
-- `TypeError`, and `shown` is `str` of a value, `isoformat` of a date.
pub record Codec : Type 0 where
  pub texts : Texts
  pub head : String → String
  pub ends_with : String → String → Bool
  pub dumps : Value → Option String
  pub shown : Value → String

-- The keyword arguments for the transport: one of these keys, or none.
pub data RequestFilters : Type 0 where
  nothing : RequestFilters
  params : List (String × String) → RequestFilters
  json : Fields → RequestFilters
  raw : Value → RequestFilters
  form : List (String × Value) → RequestFilters

pub data RequestFilter : Type 0 where
  form_filters json_filters raw_filters : RequestFilter

unfoldable pub normalise_media_type : Codec → Option String → String
normalise_media_type c none = ""
normalise_media_type c (some value) =
    if value == "" then "" else c.texts.lower (c.texts.strip (c.head value))

unfoldable pub media_type_of : Codec → Dict String → String
media_type_of c [] = ""
media_type_of c ((name, value) ∷ headers) =
    if c.texts.lower name == "content-type"
    then normalise_media_type c (some value)
    else media_type_of c headers

unfoldable pub is_json_media_type : Codec → String → Bool
is_json_media_type c media = media == "application/json" || c.ends_with media "+json"

abbrev pub raw_body_media_types : List String
raw_body_media_types = "application/soap+xml" ∷ "application/xml" ∷ "text/xml" ∷ []

-- `isinstance(payload, (str, bytes))`
abbrev pub is_encoded : Value → Bool
is_encoded (text s) = true
is_encoded (bytes b) = true
is_encoded _ = false

unfoldable pub filter_for_media_type : Codec → String → Value → RequestFilter
filter_for_media_type c media payload =
    if media == "application/x-www-form-urlencoded"
    then form_filters
    else if is_json_media_type c media
    then json_filters
    else if contains raw_body_media_types media
    then raw_filters
    else if is_encoded payload
    then raw_filters
    else json_filters

unfoldable pub is_get : Codec → String → Bool
is_get c request_type = c.texts.lower (c.texts.strip request_type) == "get"

-- A value that `orjson` refuses raises its `TypeError`.
unfoldable pub dumped : Codec → Refusal → Value → Result String
dumped c reason value = elim (c.dumps value) [ none ↦ err reason | some s ↦ ok s ]

unfoldable pub coerce_query_value : Codec → Value → Result String
coerce_query_value c (bool b) = ok (if b then "true" else "false")
coerce_query_value c none_value = ok ""
coerce_query_value c (text s) = ok s
coerce_query_value c (dict fs) = dumped c type_error (dict fs)
coerce_query_value c (list vs) = dumped c type_error (list vs)
coerce_query_value c value = ok (c.shown value)

-- A list under a name, one pair for each element.
unfoldable pub repeated : Codec → String → Values → Result (List (String × String))
repeated c key nil = ok []
repeated c key (cons v vs) = do
  value ← coerce_query_value c v
  rest ← repeated c key vs
  ok ((key, value) ∷ rest)

-- The pairs of one name.
unfoldable pub pairs_of : Codec → String → Value → Result (List (String × String))
pairs_of c key (list vs) = repeated c key vs
pairs_of c key v = do value ← coerce_query_value c v; ok ((key, value) ∷ [])

unfoldable pub build_query_params : Codec → Fields → Result (List (String × String))
build_query_params c end = ok []
build_query_params c (field k v fs) = do
  first ← pairs_of c k v
  rest ← build_query_params c fs
  ok (first ++ rest)

-- The pairs that `form_x_www_form_urlencoded_filters` adds to the form.
unfoldable pub form_fields : Codec → Fields → Result (List (String × Value))
form_fields c end = ok []
form_fields c (field k v fs) = do
  value ← form_value c v
  rest ← form_fields c fs
  ok ((k, value) ∷ rest)
  where
    form_value : Codec → Value → Result Value
    form_value c (dict gs) = do s ← dumped c type_error (dict gs); ok (text s)
    form_value c other = ok other

-- The three filters; the form filter reads `items` of its payload, which only a mapping has.
unfoldable pub filtered : Codec → RequestFilter → String → Value → Result RequestFilters
filtered c raw_filters request_type none_value = ok nothing
filtered c raw_filters request_type data_given = ok (raw data_given)
filtered c json_filters request_type data_given = json_of c (is_get c request_type) data_given
  where
    json_of : Codec → Bool → Value → Result RequestFilters
    json_of c true (dict fs) = do pairs ← build_query_params c fs; ok (params pairs)
    json_of c true other = ok nothing
    json_of c false (dict fs) = ok (json fs)
    json_of c false (text s) = ok (raw (text s))
    json_of c false (bytes b) = ok (raw (bytes b))
    json_of c false other = do s ← dumped c bad_encoding other; ok (raw (text s))
filtered c form_filters request_type (dict fs) = do pairs ← form_fields c fs; ok (form pairs)
filtered c form_filters request_type other = err attribute_error
