-- ===== src/Breaker/Run/Sources.antt =====
-- Where the failure comes from that ends `CircuitBreakerHelper.run`.
use async_gateway.Prelude.{ℕ, zero, suc, ◌≡◌, Bool, Option, none, some, arith, subst}
use async_gateway.Breaker.{Breaker, Policy, record_success}
use async_gateway.Breaker.Failures.{Failure}
use async_gateway.Breaker.Attempt.{
  Outcome, returned, circuit_open, retries_exhausted, raised, Reply, answered, failed, Phase, ready,
  calling, backing_off, finished, settle, should_abort,
}
use async_gateway.Breaker.Run.{Turn, advance, drive, run}
use async_gateway.Breaker.Run.Raised.{IsPlain, allows-IsPlain, failure-IsPlain}

-- The last failure, if there was one.
abbrev pub RecentFails {κ} : (Failure → Type κ) → Option Failure → Type κ
RecentFails Fails none = Unit
RecentFails Fails (some e) = Fails e

module _ {ℓ κ} {A : Type ℓ} (Fails : Failure → Type κ) where
  -- The failure that a reply, or the end of `run`, carries.
  abbrev pub ReplyFails : Reply A → Type κ
  ReplyFails (answered a) = Unit
  ReplyFails (failed e) = Fails e

  abbrev pub OutcomeFails : Outcome A → Type κ
  OutcomeFails (returned a) = Unit
  OutcomeFails (circuit_open recent) = RecentFails Fails recent
  OutcomeFails (retries_exhausted e) = Fails e
  OutcomeFails (raised e) = Fails e

  abbrev PhaseFails : Phase A → Type κ
  PhaseFails (ready n recent) = RecentFails Fails recent
  PhaseFails (calling n recent trialling) = RecentFails Fails recent
  PhaseFails (backing_off n e trialling wait) = Fails e
  PhaseFails (finished o) = OutcomeFails o

  module _ (policy : Option Policy) where
    settle-PhaseFails :
        (now n : ℕ) (trialling : Bool) (reply : Reply A) (b : Breaker)
        → IsPlain policy b
        → ReplyFails reply
        → PhaseFails (settle now n trialling reply b).0
          × IsPlain policy (settle now n trialling reply b).1
    unfolding settle record_success should_abort
    settle-PhaseFails now n trialling (answered a) b v f = ground arith
    settle-PhaseFails now n trialling (failed e) b v f =
        ground (arith, failure-IsPlain policy now b v)

    module _ (turns : ℕ → Turn A) (fails : (n : ℕ) → ReplyFails (turns n).reply) where
      advance-PhaseFails :
          (p : Phase A) (b : Breaker)
          → IsPlain policy b
          → PhaseFails p
          → PhaseFails (advance turns p b).0 × IsPlain policy (advance turns p b).1
      unfolding advance
      advance-PhaseFails (ready n recent) b v f =
          ground (arith, allows-IsPlain policy (turns (suc n)).entered b v)
      advance-PhaseFails (calling n recent trialling) b v f =
          settle-PhaseFails (turns n).settled n trialling (turns n).reply b v (fails n)
      advance-PhaseFails (backing_off n e trialling wait) b v f = ground arith
      advance-PhaseFails (finished o) b v f = (f, v)

      drive-OutcomeFails :
          (fuel calls : ℕ) (p : Phase A) (b b' : Breaker) (o : Outcome A) (n : ℕ)
          → IsPlain policy b
          → PhaseFails p
          → drive turns fuel p calls b ≡ some (o, b', n)
          → OutcomeFails o
      unfolding drive
      drive-OutcomeFails zero calls p b b' o n v f got = cc
      drive-OutcomeFails (suc fuel) calls (finished r) b b' o n v f got = subst OutcomeFails (cc) f
      drive-OutcomeFails (suc fuel) calls (ready k recent) b b' o n v f got =
          let (fails', plain) = advance-PhaseFails (ready k recent) b v f in
          drive-OutcomeFails fuel calls (advance turns (ready k recent) b).0
            (advance turns (ready k recent) b).1 b' o n plain fails' got
      drive-OutcomeFails (suc fuel) calls (calling k recent t) b b' o n v f got =
          let (fails', plain) = advance-PhaseFails (calling k recent t) b v f in
          drive-OutcomeFails fuel (suc calls) (advance turns (calling k recent t) b).0
            (advance turns (calling k recent t) b).1 b' o n plain fails' got
      drive-OutcomeFails (suc fuel) calls (backing_off k e t w) b b' o n v f got =
          let (fails', plain) = advance-PhaseFails (backing_off k e t w) b v f in
          drive-OutcomeFails fuel calls (advance turns (backing_off k e t w) b).0
            (advance turns (backing_off k e t w) b).1 b' o n plain fails' got

-- Without callbacks, what holds of every failure of a call holds of the failure that ends `run`.
pub run-OutcomeFails {ℓ κ} :
    {A : Type ℓ} (Fails : Failure → Type κ) (turns : ℕ → Turn A) (fuel : ℕ) (b b' : Breaker)
    (o : Outcome A) (n : ℕ)
    → ((m : ℕ) → ReplyFails Fails (turns m).reply)
    → IsPlain b.retry_policy b
    → run turns fuel b ≡ some (o, b', n)
    → OutcomeFails Fails o
unfolding run
run-OutcomeFails Fails turns fuel b b' o n fails v got =
    drive-OutcomeFails Fails b.retry_policy turns fails fuel 0 (ready 0 none) b b' o n v tt got
