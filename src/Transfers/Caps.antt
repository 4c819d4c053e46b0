-- ===== src/Transfers/Caps.antt =====
-- What the caps on a response let through (asyncio_gateway/utils/http_file_config.py).
use async_gateway.Prelude.{
  ℕ, ◌+◌, ◌≤◌, ◌≡◌, refl, ap, ◌∙◌, Bool-cases, inl, inr, ltb, String, Bool, true, ◌&&◌, Option,
  none, some, List, [], ◌∷◌, ◌++◌, arith, Dict, leb, length, all, is_none,
}
use async_gateway.Prelude.Int.{ℤ, pos, leb_ℤ}
use async_gateway.Transfers.{
  larger, declared_by, longest_of, longest, over, guard_declared_length, iter_capped,
}

abbrev pub fits : ℕ → Option ℤ → Bool
fits maximum none = true
fits maximum (some d) = leb_ℤ d (pos maximum)

larger-fits :
    (maximum : ℕ) (l d : ℤ)
    → leb_ℤ (larger (some l) d) (pos maximum) ≡ (leb_ℤ l (pos maximum) && leb_ℤ d (pos maximum))
larger-fits maximum l d = ground arith

module _ (lower : String → String) (parse : String → Option ℤ) where
  longest_of-fits :
      (maximum : ℕ) (so_far d : Option ℤ)
      → fits maximum (longest_of lower parse so_far d) ≡ (fits maximum so_far && fits maximum d)
  longest_of-fits maximum so_far d = ground arith

  longest-fits :
      (maximum : ℕ) (so_far : Option ℤ) (headers : Dict String)
      → fits maximum (longest lower parse so_far headers)
        ≡ (fits maximum so_far && all (λ h. fits maximum (declared_by lower parse h)) headers)
  unfolding longest
  longest-fits maximum so_far [] = ground arith
  longest-fits maximum so_far (h ∷ headers) = ground (
    arith,
    longest-fits maximum (longest_of lower parse so_far (declared_by lower parse h)) headers,
    longest_of-fits maximum so_far (declared_by lower parse h),
  )

  over-fits : (maximum : ℕ) (d : Option ℤ) → is_none (over lower parse maximum d) ≡ fits maximum d
  over-fits maximum d = ground arith

  -- A response passes the check of its declared length exactly where every length that it declares
  -- is within the cap, whatever their order and whatever else the headers hold.
  pub guard_declared_length_lem :
      (headers : Dict String) (maximum : ℕ)
      → is_none (guard_declared_length lower parse headers maximum)
        ≡ all (λ h. fits maximum (declared_by lower parse h)) headers
  unfolding guard_declared_length
  guard_declared_length_lem headers maximum =
      over-fits maximum (longest lower parse none headers) ∙ longest-fits maximum none headers

abbrev pub bytes : List (List ℕ) → ℕ
bytes [] = 0
bytes (chunk ∷ chunks) = length chunk + bytes chunks

iter_capped-is_none :
    (maximum total : ℕ) (chunks : List (List ℕ))
    → total ≤ maximum
    → is_none (iter_capped maximum total chunks).1 ≡ leb (total + bytes chunks) maximum
unfolding iter_capped
iter_capped-is_none maximum total [] h = ground arith
iter_capped-is_none maximum total (chunk ∷ chunks) h =
    elim (Bool-cases (ltb maximum (total + length chunk))) [
      | inl over_ ↦ rw over_ (ground (arith, over_))
      | inr within ↦ rw within (
          iter_capped-is_none maximum (total + length chunk) chunks (ground (arith, within))
          ∙ ap (λ n. leb n maximum) (omega arith))
    ]

iter_capped-bytes :
    (maximum total : ℕ) (chunks : List (List ℕ))
    → total ≤ maximum
    → total + bytes (iter_capped maximum total chunks).0 ≤ maximum
unfolding iter_capped
iter_capped-bytes maximum total [] h = omega (arith, h)
iter_capped-bytes maximum total (chunk ∷ chunks) h =
    elim (Bool-cases (ltb maximum (total + length chunk))) [
      | inl over_ ↦ rw over_ (omega (arith, h))
      | inr within ↦ rw within (
          omega (
            arith,
            iter_capped-bytes maximum (total + length chunk) chunks (ground (arith, within)),
          ))
    ]

iter_capped-prefix :
    (maximum total : ℕ) (chunks : List (List ℕ))
    → (unread : List (List ℕ)) × ((iter_capped maximum total chunks).0 ++ unread ≡ chunks)
unfolding iter_capped
iter_capped-prefix maximum total [] = ([], refl)
iter_capped-prefix maximum total (chunk ∷ chunks) =
    elim (Bool-cases (ltb maximum (total + length chunk))) [
      | inl over_ ↦ rw over_ (chunk ∷ chunks, refl)
      | inr within ↦ rw within (
          let (unread, e) = iter_capped-prefix maximum (total + length chunk) chunks in
          (unread, ap (λ cs. chunk ∷ cs) e))
    ]

-- A capped read ends without an error exactly where the body is within the cap; what it yields is a
-- prefix of the body, of at most the cap's size.
pub iter_capped_lem :
    (maximum : ℕ) (chunks : List (List ℕ))
    → (is_none (iter_capped maximum 0 chunks).1 ≡ leb (bytes chunks) maximum)
      × (bytes (iter_capped maximum 0 chunks).0 ≤ maximum)
      × ((unread : List (List ℕ)) × ((iter_capped maximum 0 chunks).0 ++ unread ≡ chunks))
iter_capped_lem maximum chunks = (
  iter_capped-is_none maximum 0 chunks (omega arith) ∙ ap (λ n. leb n maximum) (omega arith),
  omega (arith, iter_capped-bytes maximum 0 chunks (omega arith)),
  iter_capped-prefix maximum 0 chunks,
)
