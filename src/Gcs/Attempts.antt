-- ===== src/Gcs/Attempts.antt =====
-- One attempt of a request on the provider (asyncio_gateway/logic/gcs_client.py): `_upload_attempt`,
-- `_head_or_list_attempt` and `_download_attempt`. What each call under the lease gives is an argument,
-- also what `stream_to_path` gives for the chunks of a download.
pub mod Pins
use async_gateway.Prelude.{
  ℕ, String, Bool, true, false, ◌&&◌, Option, none, some, ltb, eqb, if◌then◌else◌,
}
use async_gateway.Prelude.Int.{pos}
use async_gateway.Values.{Value, none_value, int, text}
use async_gateway.Errors.{response_too_large_error}
use async_gateway.Gcs.Failures.{
  Failure, gateway, abortable_service_failure, converted, converted_cleanup, Answer, failed,
  answered, ◌>>=◌, ◌>>◌,
}

-- What the calls around the work of one attempt give.
pub record Session : Type 0 where
  pub credentials : Answer (Unit {0})
  pub refresh : Answer (Unit {0})
  pub client : Answer (Unit {0})
  pub bucket : Answer (Unit {0})
  pub blob : Answer (Unit {0})
  pub close : Answer (Unit {0})

abbrev pub converting {ℓ} : {Given : Type ℓ} → Answer Given → Answer Given
converting (failed e) = failed (converted e)
converting (answered a) = answered a

-- An error of the body goes before one of the cleanup.
abbrev pub cleaned {ℓ} : {Given : Type ℓ} → Answer Given → Answer (Unit {0}) → Answer Given
cleaned (failed e) closed = failed e
cleaned (answered a) (failed e) = failed (converted_cleanup e)
cleaned (answered a) (answered tt) = answered a

-- The frame that the three attempts share; the client is closed only where it was constructed. The
-- Boolean says whether it was closed.
unfoldable pub in_session {ℓ} : {Given : Type ℓ} → Session → Answer Given → Answer Given × Bool
in_session s work = elim (s.credentials >> (s.refresh >> s.client)) [
  | failed e ↦ (failed (converted e), false)
  | answered unit ↦ (cleaned (converting work) s.close, true)
]

-- `metadata` is what `_upload_blob` gives.
unfoldable pub upload_attempt {ℓ} : {Given : Type ℓ} → Session → Answer Given → Answer Given × Bool
unfolding in_session
upload_attempt s metadata = in_session s (s.bucket >> (s.blob >> metadata))

-- `metadata` is what `_reload_head_metadata` or `_list_one_page` gives.
unfoldable pub head_or_list_attempt {ℓ} :
    {Given : Type ℓ} → Bool → Session → Answer Given → Answer Given × Bool
unfolding in_session
head_or_list_attempt is_head s metadata =
    in_session s (s.bucket >> (if is_head then (s.blob >> metadata) else metadata))

-- `_DownloadPin`
pub record DownloadPin : Type 0 where
  pub generation : ℕ
  pub size : ℕ
  pub etag : Option String
  pub crc32c : Option String

-- The metadata that a reload leaves on the provider's object.
pub record Reloaded : Type 0 where
  pub generation : Value
  pub size : Value
  pub etag : Value
  pub crc32c : Value

abbrev pub unusable : Failure
unusable = abortable_service_failure 502

-- An integer that is not negative, and no Boolean.
abbrev pub count_in : Value → Answer ℕ
count_in (int (pos n)) = answered n
count_in _ = failed unusable

abbrev pub optional_text_in : Value → Answer (Option String)
optional_text_in none_value = answered none
optional_text_in (text s) = answered (some s)
optional_text_in _ = failed unusable

abbrev pub matches : Option ℕ → ℕ → Bool
matches none generation = true
matches (some expected) generation = eqb generation expected

-- `_reload_download_pin`
unfoldable pub reload_download_pin : Option ℕ → Answer Reloaded → Answer DownloadPin
reload_download_pin if_generation_match reloaded = do
  r ← reloaded
  generation ← count_in r.generation
  size ← count_in r.size
  etag ← optional_text_in r.etag
  crc32c ← optional_text_in r.crc32c
  if matches if_generation_match generation
      then answered (record { generation = generation; size = size; etag = etag; crc32c = crc32c })
      else failed unusable

-- What the reload and the writing of the chunks give.
pub record Transfer : Type 0 where
  pub reloaded : Answer Reloaded
  pub written : Answer ℕ

-- The pin of the call, which a retry keeps.
unfoldable pub pinned : Option ℕ → Option DownloadPin → Answer Reloaded → Answer DownloadPin
unfolding reload_download_pin
pinned if_generation_match (some pin) reloaded = answered pin
pinned if_generation_match none reloaded = reload_download_pin if_generation_match reloaded

abbrev pub pin_after : Option DownloadPin → Answer DownloadPin → Option DownloadPin
pin_after old (answered pin) = some pin
pin_after old (failed e) = old

-- The size check and the stream; the metadata of the result are those of the pin.
unfoldable pub stream_pinned : ℕ → DownloadPin → Answer ℕ → Answer DownloadPin
stream_pinned max_response_bytes pin written =
    if ltb max_response_bytes pin.size
    then failed (gateway response_too_large_error)
    else (do n ← written; if eqb n pin.size then answered pin else failed unusable)

-- `_download_attempt`: the pin that the call keeps, and the result.
unfoldable pub download_attempt :
    Option ℕ
    → ℕ
    → Option DownloadPin
    → Session
    → Transfer
    → Option DownloadPin × (Answer DownloadPin × Bool)
unfolding in_session pinned stream_pinned
download_attempt if_generation_match max_response_bytes pin s t =
    let chosen =
      s.credentials
      >> (s.refresh
          >> (s.client >> (s.bucket >> (s.blob >> pinned if_generation_match pin t.reloaded)))) in
    (
      pin_after pin chosen,
      in_session s (
          s.bucket
          >> (s.blob >> (do
            p ← pinned if_generation_match pin t.reloaded
            stream_pinned max_response_bytes p t.written))),
    )
