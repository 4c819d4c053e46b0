-- ===== src/Soap/Prolog/Total.antt =====
-- The walk of `scan_prolog` (asyncio_gateway/logic/soap_client.py) ends.
use async_gateway.Prelude.{
  ℕ, drop, length-drop, zero, suc, ◌+◌, ◌≤◌, ◌<◌, ◌≡◌, refl, Bool, false, Option, none, some, List,
  [], ◌∷◌, length, arith, Option-cases, inl, inr, is_none,
}
use async_gateway.Soap.Prolog.{
  skip_past, instruction_close, comment_close, Scan, no_root, walk, scan_prolog,
}

skip_past-le :
    (p xs : List ℕ) (n : ℕ) (rest : List ℕ)
    → skip_past p xs ≡ some (n, rest)
    → length rest ≤ length xs
unfolding skip_past
skip_past-le p [] n rest h = cc
skip_past-le p (x ∷ xs) n rest h = elim (Option-cases (skip_past p xs)) [
  | inl e ↦ ground (arith, e, length-drop (length p) (x ∷ xs))
  | inr ((m, r), e) ↦ ground (arith, e, length-drop (length p) (x ∷ xs), skip_past-le p xs m r e)
]

module _ (is_space : ℕ → Bool) where
  -- What follows a pattern that was found is shorter, so the walk ends there.
  skipped-ends :
      (fuel cursor : ℕ) (p xs : List ℕ)
      → ((c : ℕ) (ys : List ℕ) → length ys < fuel → is_none (walk is_space fuel c ys) ≡ false)
      → length xs < fuel
      → is_none (elim (skip_past p xs) as (λ o. Option Scan) [
        | none ↦ some no_root
        | some (n, rest) ↦ walk is_space fuel (cursor + n) rest
      ])
        ≡ false
  skipped-ends fuel cursor p xs ends h = elim (Option-cases (skip_past p xs)) [
    | inl e ↦ rw e
    | inr ((n, rest), e) ↦ rw e (ends (cursor + n) rest (omega (arith, skip_past-le p xs n rest e)))
  ]

  walk_total :
      (fuel cursor : ℕ) (xs : List ℕ)
      → length xs < fuel
      → is_none (walk is_space fuel cursor xs) ≡ false
  unfolding walk
  walk_total zero cursor xs h = elim h [ ]
  walk_total (suc fuel) cursor [] h = refl
  walk_total (suc fuel) cursor (x ∷ xs) h =
      let next = walk_total fuel (cursor + 1) xs (omega arith) in
      let instruction =
        skipped-ends fuel (cursor + 2) instruction_close (drop 2 (x ∷ xs)) (walk_total fuel)
          (omega (arith, length-drop 1 xs)) in
      let comment =
        skipped-ends fuel (cursor + 4) comment_close (drop 4 (x ∷ xs)) (walk_total fuel)
          (omega (arith, length-drop 3 xs)) in
      ground arith

-- The walk has fuel enough for every text.
pub scan_prolog_total :
    (is_space : ℕ → Bool) (xml_text : List ℕ) → is_none (scan_prolog is_space xml_text) ≡ false
unfolding scan_prolog
scan_prolog_total is_space xml_text =
    walk_total is_space (length xml_text + 1) 0 xml_text (omega arith)
