-- ===== src/Registry/Recency.antt =====
-- The registry as a bounded record of the keys' last uses.
use async_gateway.Prelude.{
  ℕ, suc, ◌-◌, drop, ◌≤◌, ◌≡◌, ◌≢◌, ◌↔◌, refl, ap, ◌∙◌, sym, Bool, true, inl, inr, Bool-cases, none,
  some, List, [], ◌∷◌, ◌++◌, arith, length, length-append, ltb, NotIn, Distinct,
}
use async_gateway.Registry.Ordered.{find, without, forget, evict, keys_of}

nothing : (m : ℕ) → 0 ≡ 0 - m
nothing m = omega arith

module _ {ℓ} {E : Type ℓ} where
  pub evict-fits : (m : ℕ) (xs : List E) → length xs ≤ m → evict m xs ≡ xs
  unfolding evict
  evict-fits m [] h = refl
  evict-fits m (x ∷ xs) h = ground arith

  -- Eviction keeps the last `m`.
  pub evict-drop : (m : ℕ) (xs : List E) → evict m xs ≡ drop (length xs - m) xs
  unfolding evict
  evict-drop m [] = ap (λ n. drop n []) (nothing m)
  evict-drop m (x ∷ xs) = elim (Bool-cases (ltb m (suc (length xs)))) [
    | inl over ↦
        let one : suc (length xs) - m ≡ suc (length xs - m) = ground (arith, over) in
        rw (over, one) (evict-drop m xs)
    | inr fits ↦ let zero_ : suc (length xs) - m ≡ 0 = ground (arith, fits) in rw (fits, zero_) refl
  ]

  pub length-evict : (m : ℕ) (xs : List E) → length (evict m xs) ≤ m
  unfolding evict
  length-evict m [] = omega arith
  length-evict m (x ∷ xs) = ground (arith, length-evict m xs)

  evict-over : (m : ℕ) (x : E) (xs : List E) → m ≤ length xs → evict m (x ∷ xs) ≡ evict m xs
  unfolding evict
  evict-over m x xs h = ground arith

  -- Eviction drops entries and adds none.
  NotIn-evict : (m : ℕ) (y : E) (xs : List E) → NotIn y xs → NotIn y (evict m xs)
  unfolding evict
  NotIn-evict m y [] h = tt
  NotIn-evict m y (x ∷ xs) (h, hs) = elim (Bool-cases (ltb m (suc (length xs)))) [
    | inl over ↦ rw over (NotIn-evict m y xs hs)
    | inr fits ↦ rw fits (h, hs)
  ]

  pub Distinct-evict : (m : ℕ) (xs : List E) → Distinct xs → Distinct (evict m xs)
  unfolding evict
  Distinct-evict m [] h = tt
  Distinct-evict m (x ∷ xs) (h, hs) = elim (Bool-cases (ltb m (suc (length xs)))) [
    | inl over ↦ rw over (Distinct-evict m xs hs)
    | inr fits ↦ rw fits (h, hs)
  ]

module _ {ℓ κ} {K : Type ℓ} {V : Type κ} where
  pub keys_of-append : (es fs : List (K × V)) → keys_of (es ++ fs) ≡ keys_of es ++ keys_of fs
  keys_of-append [] fs = refl
  keys_of-append ((k, v) ∷ es) fs = ap (λ ks. k ∷ ks) (keys_of-append es fs)

  pub length-keys_of : (es : List (K × V)) → length (keys_of es) ≡ length es
  length-keys_of [] = refl
  length-keys_of (e ∷ es) = ap suc (length-keys_of es)

  pub keys_of-evict : (m : ℕ) (es : List (K × V)) → keys_of (evict m es) ≡ evict m (keys_of es)
  unfolding evict
  keys_of-evict m [] = refl
  keys_of-evict m ((k, v) ∷ es) = ground (arith, keys_of-evict m es, length-keys_of es)

module _ {ℓ} {K : Type ℓ} (same : K → K → Bool)
    (same_iff : (a b : K) → (same a b ≡ true) ↔ (a ≡ b)) where
  -- A key's use: it becomes the last of the keys.
  abbrev pub used : K → List K → List K
  used k ks = forget same k ks ++ k ∷ []

  pub keys_of-without {κ} :
      {V : Type κ} (k : K) (es : List (K × V))
      → keys_of (without same k es) ≡ forget same k (keys_of es)
  unfolding without forget
  keys_of-without k [] = refl
  keys_of-without k ((j, v) ∷ es) = ground (arith, keys_of-without k es)

  pub forget-missing {κ} :
      {V : Type κ} (k : K) (es : List (K × V))
      → find same k es ≡ none
      → forget same k (keys_of es) ≡ keys_of es
  unfolding find forget
  forget-missing k [] h = refl
  forget-missing k ((j, v) ∷ es) h = ground (arith, forget-missing k es)

  length-forget_le : (k : K) (ks : List K) → length (forget same k ks) ≤ length ks
  unfolding forget
  length-forget_le k [] = omega arith
  length-forget_le k (j ∷ ks) = ground (arith, length-forget_le k ks)

  pub length-forget_found {κ} :
      {V : Type κ} (k : K) (es : List (K × V)) (v : V)
      → find same k es ≡ some v
      → suc (length (forget same k (keys_of es))) ≤ length es
  unfolding find forget
  length-forget_found k [] v h = cc
  length-forget_found k ((j, w) ∷ es) v h =
      ground (arith, length-forget_found k es v, length-forget_le k (keys_of es), length-keys_of es)

  forget-NotIn : (k : K) (ks : List K) → NotIn k ks → forget same k ks ≡ ks
  unfolding forget
  forget-NotIn k [] h = refl
  forget-NotIn k (j ∷ ks) (h, hs) = ground (arith, forget-NotIn k ks hs, same_iff j k)

  le-length-forget :
      (k : K) (ks : List K) → Distinct ks → length ks ≤ suc (length (forget same k ks))
  unfolding forget
  le-length-forget k [] h = omega arith
  le-length-forget k (j ∷ ks) (h, hs) = elim (Bool-cases (same j k)) [
    | inl here ↦
        rw here (
          let e : j ≡ k = (same_iff j k).0 here in rw (forget-NotIn k ks (rw e at h)) (omega arith))
    | inr other ↦ rw other (omega (arith, le-length-forget k ks hs))
  ]

  NotIn-used : (k y : K) (ks : List K) → NotIn y ks → y ≢ k → NotIn y (used k ks)
  unfolding forget
  NotIn-used k y [] h ne = (ne, tt)
  NotIn-used k y (j ∷ ks) (h, hs) ne = elim (Bool-cases (same j k)) [
    | inl here ↦ rw here (NotIn-used k y ks hs ne)
    | inr other ↦ rw other (h, NotIn-used k y ks hs ne)
  ]

  pub Distinct-used : (k : K) (ks : List K) → Distinct ks → Distinct (used k ks)
  unfolding forget
  Distinct-used k [] h = (tt, tt)
  Distinct-used k (j ∷ ks) (h, hs) = elim (Bool-cases (same j k)) [
    | inl here ↦ rw here (Distinct-used k ks hs)
    | inr other ↦
        rw other (NotIn-used k j ks h (λ e. ground (arith, same_iff j k)), Distinct-used k ks hs)
  ]

  length-used : (k : K) (ks : List K) → Distinct ks → length ks ≤ length (used k ks)
  length-used k ks h =
      omega (arith, le-length-forget k ks h, length-append (forget same k ks) (k ∷ []))

  -- The oldest key of more than `m` is dropped before a use as after it.
  evict-used_over :
      (m : ℕ) (k j : K) (ks : List K)
      → Distinct (j ∷ ks)
      → m ≤ length ks
      → evict m (used k ks) ≡ evict m (used k (j ∷ ks))
  unfolding forget
  evict-used_over m k j ks (h, hs) over = elim (Bool-cases (same j k)) [
    | inl here ↦ rw here refl
    | inr other ↦
        rw other (sym (evict-over m j (used k ks) (omega (arith, over, length-used k ks hs))))
  ]

  -- What is evicted would be evicted later all the same.
  pub evict-used :
      (m : ℕ) (k : K) (ks : List K)
      → Distinct ks
      → evict m (used k (evict m ks)) ≡ evict m (used k ks)
  unfolding evict
  evict-used m k [] h = refl
  evict-used m k (j ∷ ks) (h, hs) = elim (Bool-cases (ltb m (suc (length ks)))) [
    | inl over ↦
        rw over (evict-used m k ks hs ∙ evict-used_over m k j ks (h, hs) (ground (arith, over)))
    | inr fits ↦ rw fits refl
  ]
