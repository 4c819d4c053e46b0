-- ===== src/Breaker/Run/Termination.antt =====
-- `run` ends after at most one call more than the policy's retries, whatever the calls, the clock
-- and the callbacks do.
use async_gateway.Prelude.{
  ℕ, zero, suc, ◌+◌, ◌-◌, ◌*◌, ◌≤◌, ◌<◌, ◌≡◌, Bool, Option, none, some, arith, refl, true,
}
use async_gateway.Breaker.{Breaker, Policy, allows_execution, record_failure, record_success}
use async_gateway.Breaker.Attempt.{
  Outcome, Reply, answered, failed, Phase, ready, calling, backing_off, finished, settle,
  should_retry,
}
use async_gateway.Breaker.Run.{Turn, advance, calls_after, drive, run}

abbrev pub limit : Option Policy → ℕ
limit none = 0
limit (some p) = p.allowed_retries

module _ {ℓ} {A : Type ℓ} where
  -- How many awaits are left at most, with `l` retries allowed.
  abbrev rank : ℕ → Phase A → ℕ
  rank l (ready n recent) = 3 * (suc l - n) + 1
  rank l (calling n recent trialling) = 3 * (suc l - n) + 3
  rank l (backing_off n recent trialling wait) = 3 * (suc l - n) + 2
  rank l (finished o) = 0

  -- The attempt number stays within the limit and is the number of calls made.
  abbrev Fits : ℕ → Phase A → ℕ → Type 0
  Fits l (ready n recent) calls = (n ≤ l) × (calls ≡ n)
  Fits l (calling n recent trialling) calls = (n ≤ suc l) × (suc calls ≡ n)
  Fits l (backing_off n recent trialling wait) calls = (n ≤ l) × (calls ≡ n)
  Fits l (finished o) calls = calls ≤ suc l

  abbrev Advanced : ℕ → Phase A → ℕ → Phase A × Breaker → Type 0
  Advanced l p calls (p', b') =
      Fits l p' (calls_after p calls) × (rank l p' < rank l p) × (limit b'.retry_policy ≡ l)

limit-allows :
    (now : ℕ) (b : Breaker) → limit (allows_execution now b).0.retry_policy ≡ limit b.retry_policy
unfolding allows_execution
limit-allows now b = ground arith

limit-failure :
    (now : ℕ) (b : Breaker) → limit (record_failure now b).retry_policy ≡ limit b.retry_policy
unfolding record_failure
limit-failure now b = ground arith

-- A retry is allowed only within the limit.
should_retry-le :
    (b : Breaker) (n : ℕ) (e : _) → should_retry b n e ≡ true → n ≤ limit b.retry_policy
unfolding should_retry
should_retry-le b n e h = ground arith

module _ {ℓ} {A : Type ℓ} (turns : ℕ → Turn A) where
  settle-Advanced :
      (l calls now n : ℕ) (trialling : Bool) (reply : Reply A) (b : Breaker)
      → limit b.retry_policy ≡ l
      → n ≤ suc l
      → suc calls ≡ n
      → Advanced l (calling n none trialling) calls (settle now n trialling reply b)
  unfolding settle record_success
  settle-Advanced l calls now n trialling (answered a) b k h c = ground arith
  settle-Advanced l calls now n trialling (failed e) b k h c =
      ground (arith, limit-failure now b, should_retry-le (record_failure now b) n e)

  advance-Advanced :
      (l calls : ℕ) (p : Phase A) (b : Breaker)
      → limit b.retry_policy ≡ l
      → Fits l p calls
      → (0 < rank l p)
      → Advanced l p calls (advance turns p b)
  unfolding advance
  advance-Advanced l calls (ready n recent) b k h pos =
      ground (arith, limit-allows (turns (suc n)).entered b)
  advance-Advanced l calls (calling n recent trialling) b k h pos =
      settle-Advanced l calls (turns n).settled n trialling (turns n).reply b k h.0 h.1
  advance-Advanced l calls (backing_off n recent trialling wait) b k h pos = ground arith
  advance-Advanced l calls (finished o) b k h pos = absurd (omega arith)

  drive_total :
      (l fuel calls : ℕ) (p : Phase A) (b : Breaker)
      → limit b.retry_policy ≡ l
      → Fits l p calls
      → rank l p < fuel
      → (r : Outcome A × Breaker × ℕ) × (drive turns fuel p calls b ≡ some r) × (r.2 ≤ suc l)
  unfolding drive
  drive_total l zero calls p b k h enough = elim enough [ ]
  drive_total l (suc fuel) calls (finished o) b k h enough = ((o, b, calls), refl, h)
  drive_total l (suc fuel) calls (ready n recent) b k h enough =
      let (fits, falls, same) = advance-Advanced l calls (ready n recent) b k h (omega arith) in
      drive_total l fuel calls (advance turns (ready n recent) b).0
        (advance turns (ready n recent) b).1 same fits (omega arith)
  drive_total l (suc fuel) calls (calling n recent t) b k h enough =
      let (fits, falls, same) = advance-Advanced l calls (calling n recent t) b k h (omega arith) in
      drive_total l fuel (suc calls) (advance turns (calling n recent t) b).0
        (advance turns (calling n recent t) b).1 same fits (omega arith)
  drive_total l (suc fuel) calls (backing_off n recent t w) b k h enough =
      let (fits, falls, same) =
        advance-Advanced l calls (backing_off n recent t w) b k h (omega arith) in
      drive_total l fuel calls (advance turns (backing_off n recent t w) b).0
        (advance turns (backing_off n recent t w) b).1 same fits (omega arith)

-- With fuel for three awaits an attempt, `run` gives an outcome, and makes at most one call more than
-- the policy allows retries (one call without a policy), whatever the calls, the clock and the
-- callbacks do.
pub run_total {ℓ} :
    {A : Type ℓ} (turns : ℕ → Turn A) (fuel : ℕ) (b : Breaker)
    → 3 * limit b.retry_policy + 5 ≤ fuel
    → (r : Outcome A × Breaker × ℕ) × (run turns fuel b ≡ some r)
      × (r.2 ≤ suc (limit b.retry_policy))
unfolding run
run_total turns fuel b enough =
    drive_total turns (limit b.retry_policy) fuel 0 (ready 0 none) b refl (omega arith)
      (omega arith)
