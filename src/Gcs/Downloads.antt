-- ===== src/Gcs/Downloads.antt =====
-- The ranges of a download (asyncio_gateway/logic/gcs_client.py): `_download_chunks` and the check of
-- `_download_blob_range`. The provider's answer to a range is a parameter.
pub mod Ranges
pub mod Exact
use async_gateway.Prelude.{
  ℕ, zero, suc, ◌+◌, ◌-◌, Bool, true, false, Option, none, some, List, [], ◌∷◌, length, ltb, eqb,
  if◌then◌else◌,
}
use async_gateway.Gcs.Failures.{
  Failure, gateway, abortable_service_failure, is_transport_failure, transport_error_for, Answer,
  failed, answered,
}

abbrev pub gcs_download_chunk_size : ℕ
gcs_download_chunk_size = 65536

-- `min`
abbrev pub least : ℕ → ℕ → ℕ
least a b = if ltb b a then b else a

-- The check of `_download_blob_range` on the data of one inclusive range.
unfoldable pub exact_range : ℕ → ℕ → Answer (List ℕ) → Answer (List ℕ)
exact_range start end_ (failed e) = failed e
exact_range start end_ (answered bytes) =
    if eqb (length bytes) (end_ - start + 1)
    then answered bytes
    else failed (abortable_service_failure 502)

-- The `except` clause of the loop.
abbrev pub raised_by_range : Failure → Failure
raised_by_range e = if is_transport_failure e then gateway (transport_error_for e) else e

-- `_download_chunks` from `offset` on: the chunks that it yields and what it raises after them. `none`
-- means that the fuel ran out. `fetch` gives what the lease's call of `download_as_bytes` gives.
unfoldable pub download_chunks :
    ℕ → (ℕ → ℕ → Answer (List ℕ)) → ℕ → ℕ → Option (List (List ℕ) × Option Failure)
unfolding exact_range
download_chunks zero fetch size offset = none
download_chunks (suc fuel) fetch size offset =
    let end_ = least (offset + gcs_download_chunk_size) size - 1 in
    let rest = download_chunks fuel fetch size (end_ + 1) in
    if ltb offset size
    then (elim (exact_range offset end_ (fetch offset end_)) [
      | failed e ↦ some ([], some (raised_by_range e))
      | answered bytes ↦ elim rest [ none ↦ none | some (chunks, e) ↦ some (bytes ∷ chunks, e) ]
    ])
    else some ([], none)
