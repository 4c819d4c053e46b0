-- ===== src/Breaker/Tasks/Overlap.antt =====
-- A retry's wait keeps the trial of a half-open circuit, and its end releases whatever trial is then
-- claimed.
use async_gateway.Prelude.{ℕ, ◌≤◌, ◌≡◌, refl, true, false, none, some, arith}
use async_gateway.Breaker.Clock.{elapsed_below}
use async_gateway.Breaker.Failures.{Failure}
use async_gateway.Breaker.{Breaker, Policy, is_open, half_open, allows_execution, record_failure}
use async_gateway.Breaker.Attempt.{
  Phase, calling, backing_off, ready, begin, settle, wake, should_abort, should_retry, backoff_for,
}
use async_gateway.Breaker.Run.{Turn, advance}
use async_gateway.Breaker.Run.Results.{Retries}

module _ {ℓ} {A : Type ℓ} (turns others : ℕ → Turn A) (b : Breaker) where
  -- A first coroutine enters and its call ends; a second one enters; the first goes on after its
  -- wait, to the head of the loop and from there.
  abbrev pub entered : Phase A × Breaker
  entered = advance turns (ready 0 none) b

  abbrev pub ended : Phase A × Breaker
  ended = advance turns entered.0 entered.1

  abbrev pub other : Phase A × Breaker
  other = advance others (ready 0 none) ended.1

  abbrev pub woken : Phase A × Breaker
  woken = advance turns ended.0 other.1

  abbrev pub again : Phase A × Breaker
  again = advance turns woken.0 woken.1

  -- The breaker with a trial, and after the failure of the first one.
  abbrev on_trial : Breaker → Breaker
  on_trial c = record c { state = half_open; trial_taken = true }

  abbrev reopened : Breaker
  reopened = record (on_trial b) { state = is_open; opened_at = (turns 1).settled; failures = 0 }

  entered_lem :
      b.state ≡ is_open
      → elapsed_below (turns 1).entered b.opened_at b.reset_timeout ≡ false
      → entered ≡ (calling 1 none true, on_trial b)
  unfolding advance begin allows_execution
  entered_lem o h = ground arith

  settled_lem :
      (p : Policy) (e : Failure)
      → b.retry_policy ≡ some p
      → b.on_failed_attempt ≡ none
      → Retries p (turns 1).reply e
      → 1 ≤ p.allowed_retries
      → advance turns (calling 1 none true) (on_trial b)
        ≡ (backing_off 1 e true (p.for_attempt 1), reopened)
  unfolding advance settle should_abort should_retry backoff_for record_failure
  settled_lem p e policy silent r more = ground arith

  other_lem :
      elapsed_below (others 1).entered (turns 1).settled b.reset_timeout ≡ false
      → advance others (ready 0 none) reopened ≡ (calling 1 none true, on_trial reopened)
  unfolding advance begin allows_execution
  other_lem h = ground arith

  resumed_lem :
      (e : Failure) (w : ℕ)
      → advance turns (backing_off 1 e true w) (on_trial reopened)
        ≡ (ready 1 (some e), record (on_trial reopened) { trial_taken = false })
  unfolding advance wake
  resumed_lem e w = refl

  again_lem :
      (e : Failure)
      → advance turns (ready 1 (some e)) (record (on_trial reopened) { trial_taken = false })
        ≡ (calling 2 (some e) true, on_trial reopened)
  unfolding advance begin allows_execution
  again_lem e = refl

-- Two trials at once. From an open circuit whose reset time has elapsed, a coroutine takes the trial;
-- its call fails with a failure that the policy retries, which opens the circuit again, and it waits.
-- If the reset time elapses during the wait, a second coroutine takes the new trial; the end of the wait
-- releases that trial, and the first coroutine is admitted beside it: the half-open circuit has two
-- trial calls in flight. No `on_failed_attempt` callback is configured.
pub overlapping_trials {ℓ} :
    {A : Type ℓ} (turns others : ℕ → Turn A) (b : Breaker) (p : Policy) (e : Failure)
    → b.state ≡ is_open
    → b.retry_policy ≡ some p
    → b.on_failed_attempt ≡ none
    → elapsed_below (turns 1).entered b.opened_at b.reset_timeout ≡ false
    → Retries p (turns 1).reply e
    → 1 ≤ p.allowed_retries
    → elapsed_below (others 1).entered (turns 1).settled b.reset_timeout ≡ false
    → ((entered turns others b).0 ≡ calling 1 none true)
      × ((other turns others b).0 ≡ calling 1 none true)
      × ((again turns others b).0 ≡ calling 2 (some e) true)
      × ((again turns others b).1.state ≡ half_open)
overlapping_trials turns others b p e o policy silent due r more due_again =
    rw
      (
        entered_lem turns others b o due,
        settled_lem turns others b p e policy silent r more,
        other_lem turns others b due_again,
        resumed_lem turns others b e (p.for_attempt 1),
        again_lem turns others b e,
      )
      (refl, refl, refl, refl)
