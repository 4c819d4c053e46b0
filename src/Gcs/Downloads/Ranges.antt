-- ===== src/Gcs/Downloads/Ranges.antt =====
-- The chunks of a download of asyncio_gateway/logic/gcs_client.py together.
use async_gateway.Prelude.{
  ℕ, zero, suc, ◌+◌, ◌-◌, ◌≤◌, ◌<◌, ◌≡◌, ◌≢◌, ◌⊎◌, refl, Option, none, some, List, [], ◌∷◌, ◌++◌,
  length, length-append, ltb, arith, Bool-cases, inl, inr, All,
}
use async_gateway.Gcs.Failures.{Failure, Answer, failed, answered}
use async_gateway.Gcs.Downloads.{
  gcs_download_chunk_size, least, exact_range, download_chunks, raised_by_range,
}

-- `b''.join(chunks)`
abbrev pub joined : List (List ℕ) → List ℕ
joined [] = []
joined (x ∷ xs) = x ++ joined xs

abbrev pub IsChunk : List ℕ → Type 0
IsChunk bytes = length bytes ≤ gcs_download_chunk_size

abbrev Sized : ℕ → ℕ → List (List ℕ) × Option Failure → Type 0
Sized size offset (chunks, e) =
    All IsChunk chunks
    × (length (joined chunks) ≤ size - offset)
    × (((e ≡ none) × (length (joined chunks) ≡ size - offset))
        ⊎ ((e ≢ none) × (length (joined chunks) < size - offset)))

exact_range-length :
    (start end_ : ℕ) (a : Answer (List ℕ)) (bytes : List ℕ)
    → exact_range start end_ a ≡ answered bytes
    → length bytes ≡ end_ - start + 1
unfolding exact_range
exact_range-length start end_ (failed e) bytes h = ground arith
exact_range-length start end_ (answered b) bytes h = ground arith

-- The end of the range that starts at `offset`.
abbrev pub range_end : ℕ → ℕ → ℕ
range_end size offset = least (offset + gcs_download_chunk_size) size - 1

module _ (fetch : ℕ → ℕ → Answer (List ℕ)) (size : ℕ) where
  abbrev Gives : ℕ → ℕ → Type 0
  Gives fuel offset =
      (r : List (List ℕ) × Option Failure) × (download_chunks fuel fetch size offset ≡ some r)
      × Sized size offset r

  one_range :
      (fuel offset : ℕ) (a : Answer (List ℕ))
      → offset < size
      → exact_range offset (range_end size offset) (fetch offset (range_end size offset)) ≡ a
      → Gives fuel (range_end size offset + 1)
      → Gives (suc fuel) offset
  unfolding download_chunks
  one_range fuel offset (failed e) more at rest =
      (([], some (raised_by_range e)), ground arith, (tt, omega arith, inr (λ h. cc, omega arith)))
  one_range fuel offset (answered bytes) more at ((chunks, e), got, (small, most, whole)) =
      let long = exact_range-length offset (range_end size offset) _ bytes at in
      let split = length-append bytes (joined chunks) in
      (
        (bytes ∷ chunks, e),
        ground arith,
        ((ground arith, small), ground arith, ground (arith, whole)),
      )

  download_chunks-Sized :
      (fuel offset : ℕ) → offset ≤ size → size < fuel + offset → Gives fuel offset
  unfolding download_chunks
  download_chunks-Sized zero offset le h = absurd (omega arith)
  download_chunks-Sized (suc fuel) offset le h = elim (Bool-cases (ltb offset size)) [
    | inl more ↦
        one_range fuel offset _ (ground arith) refl
          (download_chunks-Sized fuel (range_end size offset + 1) (ground arith) (ground arith))
    | inr done ↦ (([], none), ground arith, (tt, omega arith, inl (refl, ground arith)))
  ]

-- Fuel for one byte a chunk is enough. What a download yields is in chunks of at most 64 KiB, and is at
-- most the pinned size, whatever the provider answers: it is all of that size where no error ends
-- it, and less where one does.
pub download_chunks_total :
    (fetch : ℕ → ℕ → Answer (List ℕ)) (size : ℕ)
    → (chunks : List (List ℕ)) × (e : Option Failure) × (download_chunks (size + 1) fetch size 0
        ≡ some (chunks, e))
      × All IsChunk chunks
      × (length (joined chunks) ≤ size)
      × (((e ≡ none) × (length (joined chunks) ≡ size))
          ⊎ ((e ≢ none) × (length (joined chunks) < size)))
download_chunks_total fetch size =
    let ((chunks, e), got, sized) =
      download_chunks-Sized fetch size (size + 1) 0 (omega arith) (omega arith) in
    (chunks, e, got, sized.0, omega (arith, sized.1), ground (arith, sized.2))
