-- ===== src/Gcs/Downloads/Exact.antt =====
-- A download of asyncio_gateway/logic/gcs_client.py from a provider that answers each range.
use async_gateway.Prelude.{
  ℕ, zero, suc, ◌+◌, ◌-◌, ◌≤◌, ◌<◌, ◌≡◌, ap, sym, ◌∙◌, none, some, List, [], ◌∷◌, ◌++◌, length, ltb,
  arith, Bool-cases, inl, inr, take, drop, take-append-drop, drop-drop, length-drop, length-take,
  nil_of_length,
}
use async_gateway.Gcs.Failures.{Answer, answered}
use async_gateway.Gcs.Downloads.{exact_range, download_chunks}
use async_gateway.Gcs.Downloads.Ranges.{joined, range_end}

-- The provider has the object, and answers a range of it with its bytes.
abbrev pub Serves : (ℕ → ℕ → Answer (List ℕ)) → List ℕ → Type 0
Serves fetch object =
    (start end_ : ℕ)
    → start ≤ end_
    → end_ < length object
    → fetch start end_ ≡ answered (take (end_ - start + 1) (drop start object))

module _ (fetch : ℕ → ℕ → Answer (List ℕ)) (object : List ℕ) (serves : Serves fetch object) where
  abbrev Downloads : ℕ → ℕ → Type 0
  Downloads fuel offset =
      (chunks : List (List ℕ)) × (download_chunks fuel fetch (length object) offset
        ≡ some (chunks, none))
      × (joined chunks ≡ drop offset object)

  slice : ℕ → ℕ → List ℕ
  slice start end_ = take (end_ - start + 1) (drop start object)

  served_range :
      (start end_ : ℕ)
      → start ≤ end_
      → end_ < length object
      → exact_range start end_ (fetch start end_) ≡ answered (slice start end_)
  unfolding exact_range slice
  served_range start end_ le lt =
      let long =
        length-take (end_ - start + 1) (drop start object)
          (omega (arith, length-drop start object)) in
      rw (serves start end_ le lt, exact_range) (ground (arith, long))

  served-Downloads :
      (fuel offset : ℕ)
      → offset ≤ length object
      → length object < fuel + offset
      → Downloads fuel offset
  unfolding download_chunks slice
  served-Downloads zero offset le h = absurd (omega arith)
  served-Downloads (suc fuel) offset le h = elim (Bool-cases (ltb offset (length object))) [
    | inl more ↦
        let end_ = range_end (length object) offset in
        let (chunks, got, whole) = served-Downloads fuel (end_ + 1) (ground arith) (ground arith) in
        let at = served_range offset end_ (ground arith) (ground arith) in
        (
          slice offset end_ ∷ chunks,
          ground arith,
          ap (λ rest. slice offset end_ ++ rest)
                (whole
                  ∙ sym (drop-drop (end_ - offset + 1) offset (end_ + 1) object (ground arith)))
              ∙ take-append-drop (end_ - offset + 1) (drop offset object),
        )
    | inr done ↦ (
      [],
      ground arith,
      sym (nil_of_length (drop offset object) (ground (arith, length-drop offset object))),
    )
  ]

-- A provider that answers each range of an object with the bytes of the range, in as many calls as it
-- takes, gives a download that yields exactly the object and raises nothing.
pub download_chunks-exact :
    (fetch : ℕ → ℕ → Answer (List ℕ)) (object : List ℕ)
    → Serves fetch object
    → (chunks : List (List ℕ)) × (download_chunks (length object + 1) fetch (length object) 0
        ≡ some (chunks, none))
      × (joined chunks ≡ object)
download_chunks-exact fetch object serves =
    served-Downloads fetch object serves (length object + 1) 0 (omega arith) (omega arith)
