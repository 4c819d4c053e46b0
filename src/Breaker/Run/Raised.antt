-- ===== src/Breaker/Run/Raised.antt =====
-- Which failures leave `CircuitBreakerHelper.run` unchanged, and which as exhausted retries.
use async_gateway.Prelude.{
  ℕ, zero, suc, ◌≡◌, ◌⊎◌, Bool, true, false, ◌||◌, Option, none, some, arith, subst,
}
use async_gateway.Breaker.{Breaker, Policy, allows_execution, record_failure, record_success}
use async_gateway.Breaker.Failures.{Failure, is_caught, is_default_abortable}
use async_gateway.Breaker.Attempt.{
  Outcome, retries_exhausted, raised, Reply, answered, failed, Phase, ready, calling, backing_off,
  finished, settle, should_abort, policy_aborts,
}
use async_gateway.Breaker.Run.{Turn, advance, drive, run}

-- What a policy says of a failure.
abbrev pub aborts : Option Policy → Failure → Bool
aborts policy e = is_default_abortable e || policy_aborts policy e

-- The breaker has the policy and no callbacks.
pub record IsPlain (policy : Option Policy) (b : Breaker) : Type 0 where
  pub same_policy : b.retry_policy ≡ policy
  pub no_exhausted : b.on_retries_exhausted ≡ none
  pub no_failed : b.on_failed_attempt ≡ none
  pub no_abort : b.on_abort ≡ none

module _ {ℓ} {A : Type ℓ} where
  -- A failure that aborts, or that the handler does not catch, leaves as it is; one that does not abort
  -- is the cause of exhausted retries.
  abbrev pub IsSorted : Option Policy → Outcome A → Type 0
  IsSorted policy (raised e) = (aborts policy e ≡ true) ⊎ (is_caught e ≡ false)
  IsSorted policy (retries_exhausted e) = aborts policy e ≡ false
  IsSorted policy _ = Unit

  abbrev SortedPhase : Option Policy → Phase A → Type 0
  SortedPhase policy (finished o) = IsSorted policy o
  SortedPhase policy _ = Unit

pub allows-IsPlain :
    (policy : Option Policy) (now : ℕ) (b : Breaker)
    → IsPlain policy b
    → IsPlain policy (allows_execution now b).0
unfolding allows_execution
allows-IsPlain policy now b v = ground arith

pub failure-IsPlain :
    (policy : Option Policy) (now : ℕ) (b : Breaker)
    → IsPlain policy b
    → IsPlain policy (record_failure now b)
unfolding record_failure
failure-IsPlain policy now b v = ground arith

module _ {ℓ} {A : Type ℓ} (policy : Option Policy) where
  settle-sorted :
      (now n : ℕ) (trialling : Bool) (reply : Reply A) (b : Breaker)
      → IsPlain policy b
      → SortedPhase policy (settle now n trialling reply b).0
        × IsPlain policy (settle now n trialling reply b).1
  unfolding settle record_success should_abort
  settle-sorted now n trialling (answered a) b v = ground arith
  settle-sorted now n trialling (failed e) b v = ground (arith, failure-IsPlain policy now b v)

  module _ (turns : ℕ → Turn A) where
    advance-sorted :
        (p : Phase A) (b : Breaker)
        → IsPlain policy b
        → SortedPhase policy p
        → SortedPhase policy (advance turns p b).0 × IsPlain policy (advance turns p b).1
    unfolding advance
    advance-sorted (ready n recent) b v h =
        ground (arith, allows-IsPlain policy (turns (suc n)).entered b v)
    advance-sorted (calling n recent trialling) b v h =
        settle-sorted (turns n).settled n trialling (turns n).reply b v
    advance-sorted (backing_off n recent trialling wait) b v h = ground arith
    advance-sorted (finished o) b v h = (h, v)

    drive-IsSorted :
        (fuel calls : ℕ) (p : Phase A) (b b' : Breaker) (o : Outcome A) (n : ℕ)
        → IsPlain policy b
        → SortedPhase policy p
        → drive turns fuel p calls b ≡ some (o, b', n)
        → IsSorted policy o
    unfolding drive
    drive-IsSorted zero calls p b b' o n v h got = cc
    drive-IsSorted (suc fuel) calls (finished r) b b' o n v h got = subst (IsSorted policy) (cc) h
    drive-IsSorted (suc fuel) calls (ready k recent) b b' o n v h got =
        let (sorted, plain) = advance-sorted (ready k recent) b v h in
        drive-IsSorted fuel calls (advance turns (ready k recent) b).0
          (advance turns (ready k recent) b).1 b' o n plain sorted got
    drive-IsSorted (suc fuel) calls (calling k recent t) b b' o n v h got =
        let (sorted, plain) = advance-sorted (calling k recent t) b v h in
        drive-IsSorted fuel (suc calls) (advance turns (calling k recent t) b).0
          (advance turns (calling k recent t) b).1 b' o n plain sorted got
    drive-IsSorted (suc fuel) calls (backing_off k recent t w) b b' o n v h got =
        let (sorted, plain) = advance-sorted (backing_off k recent t w) b v h in
        drive-IsSorted fuel calls (advance turns (backing_off k recent t w) b).0
          (advance turns (backing_off k recent t w) b).1 b' o n plain sorted got

-- Without callbacks, a failure leaves `run` as it is only where it aborts or is of no class that `run`
-- catches, and the retries are exhausted only by one that does not abort.
pub run-IsSorted {ℓ} :
    {A : Type ℓ} (turns : ℕ → Turn A) (fuel : ℕ) (b b' : Breaker) (o : Outcome A) (n : ℕ)
    → IsPlain b.retry_policy b
    → run turns fuel b ≡ some (o, b', n)
    → IsSorted b.retry_policy o
unfolding run
run-IsSorted turns fuel b b' o n v got =
    drive-IsSorted b.retry_policy turns fuel 0 (ready 0 none) b b' o n v tt got
