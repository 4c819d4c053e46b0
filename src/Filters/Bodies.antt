-- ===== src/Filters/Bodies.antt =====
-- What the filters of asyncio_gateway/helpers/internal/filters_helper.py do to an encoded payload.
use async_gateway.Prelude.{String, true, false, ◌≡◌, arith, ◌==◌, ◌&&◌, if◌then◌else◌}
use async_gateway.Values.{
  Value, ok, none_value, bool, int, float, text, bytes, list, dict, function, exception_class,
  object,
}
use async_gateway.Filters.{
  Codec, nothing, raw, filtered, filter_for_media_type, is_json_media_type, is_encoded, is_get,
}

-- A payload of text or bytes is the request's body as it is, under every media type but that of a
-- form, except that a GET with a media type of JSON sends none: no encoder sees it.
filtered-filter_for_media_type :
    (c : Codec) (media request_type : String) (payload : Value)
    → is_encoded payload ≡ true
    → (media == "application/x-www-form-urlencoded") ≡ false
    → filtered c (filter_for_media_type c media payload) request_type payload ≡ (
        if is_json_media_type c media && is_get c request_type
        then ok nothing
        else ok (raw payload))
unfolding filtered filter_for_media_type
filtered-filter_for_media_type c media request_type (text s) encoded other = ground arith
filtered-filter_for_media_type c media request_type (bytes b) encoded other = ground arith
filtered-filter_for_media_type c media request_type none_value encoded other = cc
filtered-filter_for_media_type c media request_type (bool b) encoded other = cc
filtered-filter_for_media_type c media request_type (int n) encoded other = cc
filtered-filter_for_media_type c media request_type (float x) encoded other = cc
filtered-filter_for_media_type c media request_type (list vs) encoded other = cc
filtered-filter_for_media_type c media request_type (dict fs) encoded other = cc
filtered-filter_for_media_type c media request_type (function f) encoded other = cc
filtered-filter_for_media_type c media request_type (exception_class e) encoded other = cc
filtered-filter_for_media_type c media request_type (object o) encoded other = cc
