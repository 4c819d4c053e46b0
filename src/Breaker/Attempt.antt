-- ===== src/Breaker/Attempt.antt =====
-- One coroutine inside `CircuitBreakerHelper.run`: where it waits, and what it does to the breaker
-- between two waits. Each function is the code from one `await` to the next.
use async_gateway.Prelude.{ℕ, suc, ltb, Bool, false, ◌||◌, Option, none, some, if◌then◌else◌}
use async_gateway.Breaker.Failures.{Failure, is_caught, is_default_abortable}
use async_gateway.Breaker.{
  Breaker, Policy, Callback, allows_execution, record_success, record_failure, release_trial,
  is_half_open,
}

-- How `run` ends: it returns, `raise CircuitOpen() from recent`, `raise RetriesExhausted() from
-- recent`, or an exception leaves it unchanged.
pub data Outcome {ℓ} (A : Type ℓ) : Type ℓ where
  returned : A → Outcome A
  circuit_open : Option Failure → Outcome A
  retries_exhausted : Failure → Outcome A
  raised : Failure → Outcome A

-- What `await call(…)` gives.
pub data Reply {ℓ} (A : Type ℓ) : Type ℓ where
  answered : A → Reply A
  failed : Failure → Reply A

-- Between two awaits: at the head of the loop, in the call, in the backoff wait, or out of `run`.
pub data Phase {ℓ} (A : Type ℓ) : Type ℓ where
  ready : (attempts : ℕ) (recent : Option Failure) → Phase A
  calling : (attempts : ℕ) (recent : Option Failure) (trialling : Bool) → Phase A
  backing_off : (attempts : ℕ) (recent : Failure) (trialling : Bool) (wait : ℕ) → Phase A
  finished : Outcome A → Phase A

abbrev pub policy_aborts : Option Policy → Failure → Bool
policy_aborts none e = false
policy_aborts (some p) e = p.should_abort e

-- `_should_abort`
unfoldable pub should_abort : Breaker → Failure → Bool
should_abort b e = is_default_abortable e || policy_aborts b.retry_policy e

abbrev policy_retries : Option Policy → ℕ → Failure → Bool
policy_retries none attempts e = false
policy_retries (some p) attempts e =
    if ltb p.allowed_retries attempts then false else p.is_retriable e

-- `_should_retry`
unfoldable pub should_retry : Breaker → ℕ → Failure → Bool
should_retry b attempts e = policy_retries b.retry_policy attempts e

abbrev pub policy_backoff : Option Policy → ℕ → ℕ
policy_backoff none attempts = 0
policy_backoff (some p) attempts = p.for_attempt attempts

-- `_backoff_for`
unfoldable pub backoff_for : Breaker → ℕ → ℕ
backoff_for b attempts = policy_backoff b.retry_policy attempts

-- `_invoke`: what the callback raises, if one is configured and raises.
pub invoke : Option Callback → ℕ → Option Failure
invoke none attempts = none
invoke (some callback) attempts = callback attempts

module _ {ℓ} {A : Type ℓ} where
  -- `self._invoke(callback)` and then `rest`; an exception of the callback takes its place.
  abbrev pub after_invoke : Option Failure → Phase A → Phase A
  after_invoke none rest = rest
  after_invoke (some e) rest = finished (raised e)

  -- From the head of the loop to the call.
  unfoldable pub begin : ℕ → ℕ → Option Failure → Breaker → Phase A × Breaker
  begin now attempts recent b =
      let (b', admitted) = allows_execution now b in
      (
        if admitted
            then calling (suc attempts) recent (is_half_open b'.state)
            else finished (circuit_open recent),
        b',
      )

  -- The handler's last lines: give up, or go to the wait.
  retry_or_give_up : ℕ → Failure → Bool → Breaker → Phase A
  unfolding invoke
  retry_or_give_up attempts e trialling b =
      if should_retry b attempts e
      then backing_off attempts e trialling (backoff_for b attempts)
      else after_invoke (invoke b.on_retries_exhausted attempts) (finished (retries_exhausted e))

  -- A wait keeps the trial; every other way out of the `try` runs the `finally`.
  abbrev pub leave : Bool → Phase A → Breaker → Phase A × Breaker
  leave trialling (backing_off n e t w) b = (backing_off n e t w, b)
  leave trialling p b = (p, release_trial trialling b)

  -- From the end of the call to the next await.
  unfoldable pub settle : ℕ → ℕ → Bool → Reply A → Breaker → Phase A × Breaker
  unfolding retry_or_give_up
  settle now attempts trialling (answered a) b =
      (finished (returned a), release_trial trialling (record_success b))
  settle now attempts trialling (failed e) b =
      if is_caught e
      then (if should_abort b e
          then (
            after_invoke (invoke b.on_abort attempts) (finished (raised e)),
            release_trial trialling b,
          )
          else (let b' = record_failure now b in
              leave trialling
                (after_invoke (invoke b.on_failed_attempt attempts)
                  (retry_or_give_up attempts e trialling b'))
                b'))
      else (finished (raised e), release_trial trialling b)

  -- The wait is over.
  unfoldable pub wake : ℕ → Failure → Bool → Breaker → Phase A × Breaker
  wake attempts recent trialling b = (ready attempts (some recent), release_trial trialling b)

  -- The coroutine is cancelled during its wait.
  unfoldable pub interrupt : Failure → Bool → Breaker → Phase A × Breaker
  interrupt e trialling b = (finished (raised e), release_trial trialling b)
