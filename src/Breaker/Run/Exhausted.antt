-- ===== src/Breaker/Run/Exhausted.antt =====
-- What `run` gives when every attempt that the policy allows fails
-- (asyncio_gateway/helpers/internal/circuit_breaker_helper.py).
use async_gateway.Prelude.{
  ℕ, zero, suc, ◌+◌, ◌*◌, ◌≤◌, ◌<◌, ◌≡◌, refl, false, Option, none, some, arith, ◌∙◌,
}
use async_gateway.Breaker.{Breaker, Policy, record_failure}
use async_gateway.Breaker.Failures.{Failure}
use async_gateway.Breaker.Attempt.{
  Reply, retries_exhausted, ready, finished, settle, should_retry, should_abort,
}
use async_gateway.Breaker.Run.{Turn, drive, run}
use async_gateway.Breaker.Run.Results.{
  Retries, Quiet, counted, begin-Quiet, drive-ready, drive-calling, round, AllRetry,
}

module _ {ℓ} {A : Type ℓ} (turns : ℕ → Turn A) (p : Policy) where
  settle-exhausted :
      (now n : ℕ) (reply : Reply A) (e : Failure) (b : Breaker)
      → Quiet p b
      → b.on_retries_exhausted ≡ none
      → Retries p reply e
      → b.failures + 1 < b.maximum_failures
      → p.allowed_retries < n
      → settle now n false reply b ≡ (finished (retries_exhausted e), counted b)
  unfolding settle should_abort should_retry record_failure
  settle-exhausted now n reply e b q quiet r room last = ground arith

  last_failure :
      (fuel n calls : ℕ) (recent : Option Failure) (e : Failure) (b : Breaker)
      → Quiet p b
      → b.on_retries_exhausted ≡ none
      → Retries p (turns (suc n)).reply e
      → b.failures + 1 < b.maximum_failures
      → n ≡ p.allowed_retries
      → drive turns (suc (suc (suc fuel))) (ready n recent) calls b
        ≡ some (retries_exhausted e, counted b, suc calls)
  last_failure fuel n calls recent e b q quiet r room last =
      drive-ready turns p (suc (suc fuel)) n calls recent b _ _
        (begin-Quiet turns p (turns (suc n)).entered n recent b q)
      ∙ drive-calling turns p (suc fuel) (suc n) calls recent false b _ _ (
          settle-exhausted (turns (suc n)).settled (suc n) (turns (suc n)).reply e b q quiet r room
            (omega (arith, last)))
      ∙ (unfold drive in refl)

  drive-exhausted :
      (k fuel n calls m c f : ℕ) (recent : Option Failure) (errors : ℕ → Failure) (b : Breaker)
      → Quiet p b
      → b.on_retries_exhausted ≡ none
      → AllRetry turns p (suc k) n errors
      → m ≡ n + suc k
      → c ≡ calls + suc k
      → f ≡ b.failures + suc k
      → f < b.maximum_failures
      → n + k ≡ p.allowed_retries
      → 3 * k + 3 ≤ fuel
      → drive turns fuel (ready n recent) calls b
        ≡ some (retries_exhausted (errors m), record b { failures = f }, c)
  drive-exhausted zero (suc (suc (suc fuel))) n calls m c f recent errors b q quiet (r, rs) em ec ef
        room last enough =
      let number : m ≡ suc n = omega arith in
      let made : c ≡ suc calls = omega arith in
      rw (number, made, ef)
        (last_failure fuel n calls recent (errors (suc n)) b q quiet r (omega arith) (omega arith))
  drive-exhausted (suc k) (suc (suc (suc fuel))) n calls m c f recent errors b q quiet (r, rs) em ec
        ef room last enough =
      round turns p fuel n calls recent (errors (suc n)) b q r (omega arith) (omega arith)
      ∙ drive-exhausted k fuel (suc n) (suc calls) m c f (some (errors (suc n))) errors (counted b)
          (record { closed_now = q.closed_now; policy = q.policy; silent = q.silent }) quiet rs
          (omega arith) (omega arith) (omega arith) room (omega arith) (omega arith)
  drive-exhausted k zero n calls m c f recent errors b q quiet rs em ec ef room last enough =
      absurd (omega arith)
  drive-exhausted k (suc zero) n calls m c f recent errors b q quiet rs em ec ef room last enough =
      absurd (omega arith)
  drive-exhausted k (suc (suc zero)) n calls m c f recent errors b q quiet rs em ec ef room last
        enough =
      absurd (omega arith)

-- In a closed circuit whose count has room for the failures, and whose two callbacks of a failure are
-- not configured: when the first call and each allowed retry fail with failures that the policy
-- retries, `run` raises `RetriesExhausted` from the last of them, after one call more than the allowed
-- retries, each of which has been counted.
pub run-exhausted {ℓ} :
    {A : Type ℓ} (turns : ℕ → Turn A) (p : Policy) (fuel : ℕ) (errors : ℕ → Failure) (b : Breaker)
    → Quiet p b
    → b.on_retries_exhausted ≡ none
    → AllRetry turns p (suc p.allowed_retries) 0 errors
    → b.failures + suc p.allowed_retries < b.maximum_failures
    → 3 * p.allowed_retries + 3 ≤ fuel
    → run turns fuel b
      ≡ some (
        retries_exhausted (errors (suc p.allowed_retries)),
        record b { failures = b.failures + suc p.allowed_retries },
        suc p.allowed_retries,
      )
unfolding run
run-exhausted turns p fuel errors b q quiet rs room enough =
    drive-exhausted turns p p.allowed_retries fuel 0 0 (suc p.allowed_retries)
      (suc p.allowed_retries) (b.failures + suc p.allowed_retries) none errors b q quiet rs
      (omega arith) (omega arith) refl room (omega arith) enough
