-- ===== src/Gcs/Calls/Ownership.antt =====
-- Who has the result of a provider call of asyncio_gateway/logic/gcs_client.py, and which cancellation
-- ends it.
use async_gateway.Prelude.{ℕ, ◌⊎◌, ◌≡◌, refl, true, Option, none, some, List, [], ◌∷◌, ◌++◌, arith}
use async_gateway.Gcs.Failures.{Answer, failed, answered, timed_out, cancelled}
use async_gateway.Gcs.Calls.{
  Course, Ending, returns, raises, drains, accepted, waited, tried, Ran, returned, expired, run,
  drain_provider_future, drained,
}

drain-some : (x : ℕ) (xs : List ℕ) → drain_provider_future xs (some x) ≡ some x
unfolding drain_provider_future
drain-some x [] = refl
drain-some x (y ∷ ys) = drain-some x ys

drain-none :
    (xs : List ℕ) (first : Option ℕ)
    → drain_provider_future xs first ≡ none
    → (first ≡ none) × (xs ≡ [])
unfolding drain_provider_future
drain-none [] first h = (h, refl)
drain-none (x ∷ xs) none h = cc (drain-some x xs, h)
drain-none (x ∷ xs) (some y) h = cc (drain-some y xs, h)

module _ {ℓ} {Given : Type ℓ} where
  -- What the caller gets, and what the provider's function made.
  abbrev pub handed_over : Ran Given → List Given
  handed_over (returned a) = a ∷ []
  handed_over _ = []

  abbrev pub made : Answer Given → List Given
  made (answered a) = a ∷ []
  made (failed e) = []

  -- A call that returns or raises does so with the provider's own end.
  abbrev IsOwn : Course Given → Ending Given → Type ℓ
  IsOwn c (returns a) = c.provider ≡ answered a
  IsOwn c (raises e) = c.provider ≡ failed e
  IsOwn c (drains x) = Unit

  accepted-IsOwn : (c : Course Given) (p : Answer Given) → c.provider ≡ p → IsOwn c (accepted p)
  unfolding accepted
  accepted-IsOwn c (answered a) e = e
  accepted-IsOwn c (failed timed_out) e = tt
  accepted-IsOwn c (failed (cancelled x)) e = tt
  accepted-IsOwn c (failed _) e = e

  waited-IsOwn : (c : Course Given) → IsOwn c (waited c)
  unfolding waited
  waited-IsOwn c = ground (arith, accepted-IsOwn c c.provider)

  tried-IsOwn : (c : Course Given) → IsOwn c (tried c)
  unfolding tried
  tried-IsOwn c = ground (arith, accepted-IsOwn c c.provider, waited-IsOwn c)

  -- A call with a cleanup: what the provider makes goes to the caller or to the cleanup, never to both
  -- and never to neither, whatever the timeouts and the cancellations.
  pub run-owned :
      (c : Course Given) → handed_over (run true c).0 ++ (run true c).1 ≡ made c.provider
  unfolding run
  run-owned c = ground (arith, tried-IsOwn c)

  drained-expired :
      (c : Course Given) (first : Option ℕ)
      → (drained true c first).0 ≡ expired
      → (first ≡ none) × (c.draining ≡ []) × ((c.cleaning ≡ []) ⊎ (made c.provider ≡ []))
  unfolding drained
  drained-expired c first h =
      let late = drain_provider_future c.draining first in
      ground (arith, drain-none c.draining first, drain-none c.cleaning late)

  tried-starting : (c : Course Given) → tried c ≡ drains none → c.starting ≡ none
  unfolding tried
  tried-starting c h = ground arith

  ended-expired :
      (c : Course Given) (e : Ending Given)
      → tried c ≡ e
      → (run true c).0 ≡ expired
      → (tried c ≡ drains none) × (c.draining ≡ []) × ((c.cleaning ≡ []) ⊎ (made c.provider ≡ []))
  unfolding run
  ended-expired c (returns a) at h = ground (arith, at)
  ended-expired c (raises e) at h = ground (arith, at)
  ended-expired c (drains first) at h = ground (arith, at, drained-expired c first)

  -- A call with a cleanup that is reported as expired met no cancellation, also none while its future
  -- and its cleanup drained.
  pub run-expired :
      (c : Course Given)
      → (run true c).0 ≡ expired
      → (c.starting ≡ none) × (c.draining ≡ []) × ((c.cleaning ≡ []) ⊎ (made c.provider ≡ []))
  run-expired c h = ground (arith, ended-expired c (tried c) refl, tried-starting c)
