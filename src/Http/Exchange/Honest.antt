-- ===== src/Http/Exchange/Honest.antt =====
-- What the envelope says of a response (`_exchange` and `_copy_into_envelope` of
-- asyncio_gateway/logic/http_client.py).
use async_gateway.Prelude.{
  ℕ, ◌≡◌, String, Bool, true, not, ◌&&◌, Option, none, some, List, [], ◌∷◌, ◌==◌, Dict, lookup, put,
  is_none, leb, if◌then◌else◌,
}
use async_gateway.Prelude.Int.{pos}
use async_gateway.Values.{Value, none_value, bool, int, text, dict}
use async_gateway.Redaction.{redact_headers, redact_cookies}
use async_gateway.Gateway.{Host}
use async_gateway.Http.Exchange.{
  Family, HttpResult, Decoder, as_fields, copy_into_envelope, Exchanged,
}

module _ (host : Host) (d : Decoder) (r : HttpResult) where
  abbrev pub shown_headers : Value
  shown_headers = dict (as_fields (redact_headers d.casefold r.headers))

  abbrev pub shown_cookies : Value
  shown_cookies = dict (as_fields (redact_cookies r.cookies))

  -- The value that a response gives to a key, if it gives it one.
  abbrev pub said : String → Option Value
  said k =
      if "text" == k
      then some (text r.text_)
      else if "cookies" == k
      then some shown_cookies
      else if "headers" == k
      then some shown_headers
      else if "status_code" == k
      then some (int (pos r.status_code))
      else none

  abbrev pub or_before : Option Value → Option Value → Option Value
  or_before (some v) before = some v
  or_before none before = before

-- The keys that closing an envelope writes.
abbrev closing : List String
closing = "ok" ∷ "error" ∷ "status_code" ∷ "latency" ∷ "payload" ∷ []

module _ (host : Host) (status : ℕ) (env : Dict Value) where
  abbrev opened : Dict Value
  opened = put "ok" (bool true) env

  abbrev cleared : Dict Value
  cleared = put "error" none_value opened

module _ (host : Host) (d : Decoder) (is_instance : ℕ → Family → Bool) (env : Dict Value)
    (r : HttpResult) where
  -- The body could not be read as its media type.
  abbrev pub malformed : Bool
  malformed = (copy_into_envelope d r env).1

  pub record IsHonest (x : Exchanged) : Type 0 where
    pub agrees : lookup "ok" x.envelope ≡ some (bool (is_none x.thrown))
    pub succeeds : is_none x.thrown ≡ (not (leb 400 r.status_code) && not malformed)
    pub status : lookup "status_code" x.envelope ≡ some (int (pos r.status_code))
    pub body : lookup "text" x.envelope ≡ some (text r.text_)
    pub headers : lookup "headers" x.envelope ≡ some (shown_headers host d r)
    pub cookies : lookup "cookies" x.envelope ≡ some (shown_cookies host d r)
