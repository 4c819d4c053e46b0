-- ===== src/Errors/Chain/Bounds.antt =====
-- The walk is bounded and visits no exception twice, also where the links form a cycle.
use async_gateway.Prelude.{
  ℕ, zero, suc, ◌+◌, ◌≤◌, ◌≡◌, ◌≢◌, refl, false, inl, inr, none, some, List, [], ◌∷◌, arith, length,
  All, NotIn, Distinct, Option-cases, Option,
}
use async_gateway.Errors.Chain.{Store, seen_before, next_link, walk, cause_chain}

length-walk :
    (n : ℕ) (store : Store) (seen : List ℕ) (link : ℕ) → length (walk n store seen link) ≤ n
unfolding walk
length-walk zero store seen link = omega arith
length-walk (suc n) store seen link = elim (Option-cases (next_link store seen link)) [
  | inl last ↦ rw (last, length) (omega arith)
  | inr (e, more) ↦ rw (more, length) (omega (arith, length-walk n store (e ∷ seen) e))
]

not_seen : (seen : List ℕ) (e : ℕ) → seen_before seen e ≡ false → All (λ s. s ≢ e) seen
not_seen [] e h = tt
not_seen (s ∷ seen) e h = (ground arith, not_seen seen e (ground arith))

-- The loop goes on to no exception that it has seen.
next_link-fresh :
    (store : Store) (seen : List ℕ) (link e : ℕ)
    → next_link store seen link ≡ some e
    → All (λ s. s ≢ e) seen
unfolding next_link
next_link-fresh store seen link e h = not_seen seen e (ground arith)

NotIn-nil : (seen : List ℕ) → All (λ s. NotIn s []) seen
NotIn-nil [] = tt
NotIn-nil (s ∷ seen) = (tt, NotIn-nil seen)

NotIn-cons :
    (seen rest : List ℕ) (e : ℕ)
    → All (λ s. s ≢ e) seen
    → All (λ s. NotIn s rest) seen
    → All (λ s. NotIn s (e ∷ rest)) seen
NotIn-cons [] rest e h k = tt
NotIn-cons (s ∷ seen) rest e (h, hs) (k, ks) = ((h, k), NotIn-cons seen rest e hs ks)

abbrev Avoids : List ℕ → List ℕ → Type 0
Avoids seen xs = All (λ s. NotIn s xs) seen × Distinct xs

NotIn-Avoids :
    (seen : List ℕ) (e : ℕ) (rest : List ℕ)
    → All (λ s. s ≢ e) seen
    → Avoids (e ∷ seen) rest
    → Avoids seen (e ∷ rest)
NotIn-Avoids seen e rest fresh h = (NotIn-cons seen rest e fresh h.0.1, (h.0.0, h.1))

Avoids-next :
    (n : ℕ) (store : Store) (seen : List ℕ) (link : ℕ) (o : Option ℕ)
    → next_link store seen link ≡ o
    → ((e : ℕ) → Avoids (e ∷ seen) (walk n store (e ∷ seen) e))
    → Avoids seen (elim o [ none ↦ [] | some e ↦ e ∷ walk n store (e ∷ seen) e ])
Avoids-next n store seen link none last ih = (NotIn-nil seen, tt)
Avoids-next n store seen link (some e) more ih =
    NotIn-Avoids seen e _ (next_link-fresh store seen link e more) (ih e)

walk-Avoids :
    (n : ℕ) (store : Store) (seen : List ℕ) (link : ℕ) → Avoids seen (walk n store seen link)
unfolding walk
walk-Avoids zero store seen link = (NotIn-nil seen, tt)
walk-Avoids (suc n) store seen link =
    Avoids-next n store seen link (next_link store seen link) refl
      (λ e. walk-Avoids n store (e ∷ seen) e)

-- The chain of causes starts at the exception, has at most `max_depth` further links and never holds
-- one exception twice, whatever the links point at.
pub cause_chain_bounds :
    (store : Store) (exc max_depth : ℕ)
    → (length (cause_chain store exc max_depth) ≤ max_depth + 1)
      × Distinct (cause_chain store exc max_depth)
unfolding cause_chain
cause_chain_bounds store exc max_depth =
    let (avoids, distinct) = walk-Avoids max_depth store (exc ∷ []) exc in
    (omega (arith, length-walk max_depth store (exc ∷ []) exc), (avoids.0, distinct))
