-- ===== src/Breaker/Run/Results.antt =====
-- What `run` gives when the circuit stays closed: the first answer within the retries, or the last
-- failure when they are used up.
use async_gateway.Prelude.{
  ℕ, zero, suc, ◌+◌, ◌*◌, ◌≤◌, ◌<◌, ◌≡◌, refl, Bool, true, false, Option, none, some, arith, ap,
  ◌∙◌,
}
use async_gateway.Breaker.{
  Breaker, Policy, closed, allows_execution, record_success, record_failure,
}
use async_gateway.Breaker.Failures.{Failure, is_caught, is_default_abortable}
use async_gateway.Breaker.Attempt.{
  Reply, answered, failed, returned, Phase, ready, calling, backing_off, finished, begin, settle,
  wake, should_retry, should_abort, backoff_for,
}
use async_gateway.Breaker.Run.{Turn, advance, drive, run}

-- The attempt fails with `e`, which the policy retries.
pub record Retries {ℓ} {A : Type ℓ} (p : Policy) (reply : Reply A) (e : Failure) : Type ℓ where
  pub fails : reply ≡ failed e
  pub caught : is_caught e ≡ true
  pub no_refusal : is_default_abortable e ≡ false
  pub no_abort : p.should_abort e ≡ false
  pub retriable : p.is_retriable e ≡ true

-- A closed breaker with the policy `p`, whose failure callback is not configured.
pub record Quiet (p : Policy) (b : Breaker) : Type 0 where
  pub closed_now : b.state ≡ closed
  pub policy : b.retry_policy ≡ some p
  pub silent : b.on_failed_attempt ≡ none

abbrev pub counted : Breaker → Breaker
counted b = record b { failures = b.failures + 1 }

module _ {ℓ} {A : Type ℓ} (turns : ℕ → Turn A) (p : Policy) where
  pub begin-Quiet :
      (now n : ℕ) (recent : Option Failure) (b : Breaker)
      → Quiet p b
      → begin {A = A} now n recent b ≡ (calling (suc n) recent false, b)
  unfolding begin allows_execution
  begin-Quiet now n recent b q = ground arith

  settle-Retries :
      (now n : ℕ) (reply : Reply A) (e : Failure) (b : Breaker)
      → Quiet p b
      → Retries p reply e
      → b.failures + 1 < b.maximum_failures
      → n ≤ p.allowed_retries
      → settle now n false reply b ≡ (backing_off n e false (p.for_attempt n), counted b)
  unfolding settle should_abort should_retry backoff_for record_failure
  settle-Retries now n reply e b q r room more = ground arith

  pub drive-ready :
      (fuel n calls : ℕ) (recent : Option Failure) (b : Breaker) (p' : Phase A) (b' : Breaker)
      → begin (turns (suc n)).entered n recent b ≡ (p', b')
      → drive turns (suc fuel) (ready n recent) calls b ≡ drive turns fuel p' calls b'
  unfolding drive advance
  drive-ready fuel n calls recent b p' b' e =
      ap (λ (r : Phase A × Breaker). drive turns fuel r.0 calls r.1) e

  pub drive-calling :
      (fuel n calls : ℕ) (recent : Option Failure) (t : Bool) (b : Breaker) (p' : Phase A)
      (b' : Breaker)
      → settle (turns n).settled n t (turns n).reply b ≡ (p', b')
      → drive turns (suc fuel) (calling n recent t) calls b ≡ drive turns fuel p' (suc calls) b'
  unfolding drive advance
  drive-calling fuel n calls recent t b p' b' e =
      ap (λ (r : Phase A × Breaker). drive turns fuel r.0 (suc calls) r.1) e

  drive-waiting :
      (fuel n calls w : ℕ) (e : Failure) (b : Breaker)
      → drive turns (suc fuel) (backing_off n e false w) calls b
        ≡ drive turns fuel (ready n (some e)) calls b
  unfolding drive advance wake
  drive-waiting fuel n calls w e b = refl

  pub round :
      (fuel n calls : ℕ) (recent : Option Failure) (e : Failure) (b : Breaker)
      → Quiet p b
      → Retries p (turns (suc n)).reply e
      → b.failures + 1 < b.maximum_failures
      → n < p.allowed_retries
      → drive turns (suc (suc (suc fuel))) (ready n recent) calls b
        ≡ drive turns fuel (ready (suc n) (some e)) (suc calls) (counted b)
  round fuel n calls recent e b q r room more =
      drive-ready (suc (suc fuel)) n calls recent b _ _
        (begin-Quiet (turns (suc n)).entered n recent b q)
      ∙ drive-calling (suc fuel) (suc n) calls recent false b _ _
          (settle-Retries (turns (suc n)).settled (suc n) (turns (suc n)).reply e b q r room more)
      ∙ drive-waiting fuel (suc n) (suc calls) (p.for_attempt (suc n)) e (counted b)

  last_round :
      (fuel n calls : ℕ) (recent : Option Failure) (b : Breaker) (a : A)
      → Quiet p b
      → (turns (suc n)).reply ≡ answered a
      → drive turns (suc (suc (suc fuel))) (ready n recent) calls b
        ≡ some (returned a, record b { state = closed; failures = 0 }, suc calls)
  last_round fuel n calls recent b a q r =
      drive-ready (suc (suc fuel)) n calls recent b _ _
        (begin-Quiet (turns (suc n)).entered n recent b q)
      ∙ drive-calling (suc fuel) (suc n) calls recent false b (finished (returned a))
          (record b { state = closed; failures = 0 }) (rw r (unfold settle record_success in refl))
      ∙ (unfold drive in refl)

  -- `k` attempts from number `n + 1` on fail and are retried.
  abbrev pub AllRetry : (k n : ℕ) → (ℕ → Failure) → Type ℓ
  AllRetry zero n errors = Unit
  AllRetry (suc k) n errors =
      Retries p (turns (suc n)).reply (errors (suc n)) × AllRetry k (suc n) errors

  drive-answered :
      (k fuel n calls m c : ℕ) (recent : Option Failure) (errors : ℕ → Failure) (b : Breaker)
      (a : A)
      → Quiet p b
      → AllRetry k n errors
      → m ≡ n + suc k
      → c ≡ calls + suc k
      → (turns m).reply ≡ answered a
      → b.failures + k < b.maximum_failures
      → n + k ≤ p.allowed_retries
      → 3 * k + 3 ≤ fuel
      → drive turns fuel (ready n recent) calls b
        ≡ some (returned a, record b { state = closed; failures = 0 }, c)
  drive-answered zero (suc (suc (suc fuel))) n calls m c recent errors b a q _ em ec reply room more
        enough =
      let first : m ≡ suc n = omega arith in
      let made : c ≡ suc calls = omega arith in
      rw made (last_round fuel n calls recent b a q (rw first at reply))
  drive-answered (suc k) (suc (suc (suc fuel))) n calls m c recent errors b a q (r, rs) em ec reply
        room more enough =
      round fuel n calls recent (errors (suc n)) b q r (omega arith) (omega arith)
      ∙ drive-answered k fuel (suc n) (suc calls) m c (some (errors (suc n))) errors (counted b) a
          (record { closed_now = q.closed_now; policy = q.policy; silent = q.silent }) rs
          (omega arith) (omega arith) reply (omega arith) (omega arith) (omega arith)
  drive-answered k zero n calls m c recent errors b a q rs em ec reply room more enough =
      absurd (omega arith)
  drive-answered k (suc zero) n calls m c recent errors b a q rs em ec reply room more enough =
      absurd (omega arith)
  drive-answered k (suc (suc zero)) n calls m c recent errors b a q rs em ec reply room more
        enough =
      absurd (omega arith)

-- In a closed circuit whose count has room for `k` more failures, and whose `on_failed_attempt`
-- callback is not configured: when `k` attempts, as many as the policy's retries at most, fail with
-- failures that the policy retries and the next one answers, `run` returns that answer after `k + 1`
-- calls, with the circuit closed and the count cleared.
pub run-answered {ℓ} :
    {A : Type ℓ} (turns : ℕ → Turn A) (p : Policy) (k fuel : ℕ) (errors : ℕ → Failure) (b : Breaker)
    (a : A)
    → Quiet p b
    → AllRetry turns p k 0 errors
    → (turns (suc k)).reply ≡ answered a
    → b.failures + k < b.maximum_failures
    → k ≤ p.allowed_retries
    → 3 * k + 3 ≤ fuel
    → run turns fuel b ≡ some (returned a, record b { state = closed; failures = 0 }, suc k)
unfolding run
run-answered turns p k fuel errors b a q rs reply room more enough =
    drive-answered turns p k fuel 0 0 (suc k) (suc k) none errors b a q rs (omega arith)
      (omega arith) reply room (omega arith) enough
