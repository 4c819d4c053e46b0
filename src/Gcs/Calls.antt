-- ===== src/Gcs/Calls.antt =====
-- One provider call under a lease: `_GcsLease.run` and `_drain_provider_future`
-- (asyncio_gateway/logic/gcs_client.py). While a lease is held the executor is not shut down, so the
-- future of the call always ends with the result or the exception of the provider's function.
pub mod Ownership
use async_gateway.Prelude.{
  ℕ, Bool, true, false, ◌&&◌, Option, none, some, List, [], ◌∷◌, ltb, if◌then◌else◌,
}
use async_gateway.Gcs.Failures.{Failure, timed_out, cancelled, Answer, failed, answered}

-- How `wait_for` ends: with the future's end, at a reading of the clock; by its own timeout; or by a
-- cancellation.
pub data Waited : Type 0 where
  ended_at : ℕ → Waited
  ran_out : Waited
  interrupted : ℕ → Waited

-- What happens during a call: the cancellations that the awaits deliver, in order, what the clock reads
-- and what the provider's function does.
pub record Course {ℓ} (Given : Type ℓ) : Type ℓ where
  pub starting : Option ℕ
  -- the timeout is below a millisecond
  pub is_short : Bool
  pub yielding : Option ℕ
  pub done_early : Bool
  pub deadline : ℕ
  pub wait : Waited
  pub provider : Answer Given
  pub draining : List ℕ
  pub cleaning : List ℕ

-- How the `try` block ends: it returns, raises, or goes on to the drain with the cancellation that it
-- caught.
pub data Ending {ℓ} (Given : Type ℓ) : Type ℓ where
  returns : Given → Ending Given
  raises : Failure → Ending Given
  drains : Option ℕ → Ending Given

-- What `run` does in the end, and the results that were given to `close_result`.
pub data Ran {ℓ} (Given : Type ℓ) : Type ℓ where
  returned : Given → Ran Given
  raised : Failure → Ran Given
  was_cancelled : ℕ → Ran Given
  expired : Ran Given

-- `_drain_provider_future`: the first cancellation is retained.
unfoldable pub drain_provider_future : List ℕ → Option ℕ → Option ℕ
drain_provider_future [] first = first
drain_provider_future (x ∷ xs) none = drain_provider_future xs (some x)
drain_provider_future (x ∷ xs) (some first) = drain_provider_future xs (some first)

module _ {ℓ} {Given : Type ℓ} where
  -- The result is taken inside the `try` block, so that a provider's own timeout or cancellation meets
  -- its `except` clauses.
  unfoldable pub accepted : Answer Given → Ending Given
  accepted (answered a) = returns a
  accepted (failed timed_out) = drains none
  accepted (failed (cancelled c)) = drains (some c)
  accepted (failed e) = raises e

  unfoldable pub waited : Course Given → Ending Given
  waited c = elim c.wait [
    | ended_at now ↦ if ltb now c.deadline then accepted c.provider else drains none
    | ran_out ↦ drains none
    | interrupted x ↦ drains (some x)
  ]

  unfoldable pub tried : Course Given → Ending Given
  unfolding waited accepted
  tried c = elim c.starting [
    | some x ↦ drains (some x)
    | none ↦
        if c.is_short
        then (elim c.yielding [
          | some x ↦ drains (some x)
          | none ↦ if c.done_early then accepted c.provider else waited c
        ])
        else waited c
  ]

  abbrev ended : Option ℕ → Ran Given
  ended (some x) = was_cancelled x
  ended none = expired

  -- The part after the `try` block.
  unfoldable pub drained : Bool → Course Given → Option ℕ → Ran Given × List Given
  unfolding drain_provider_future
  drained closes c first =
      let late = drain_provider_future c.draining first in
      elim c.provider [
        | failed e ↦ (ended late, [])
        | answered a ↦
            if closes
            then (ended (drain_provider_future c.cleaning late), a ∷ [])
            else (ended late, [])
      ]

  -- `_GcsLease.run` with the lock held and the lease not released; `closes` says that there is a
  -- `close_result`.
  unfoldable pub run : Bool → Course Given → Ran Given × List Given
  unfolding tried drained
  run closes c = elim (tried c) [
    | returns a ↦ (returned a, [])
    | raises e ↦ (raised e, [])
    | drains first ↦ drained closes c first
  ]
