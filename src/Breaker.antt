-- ===== src/Breaker.antt =====
-- The circuit breaker: `BreakerState`, the classification of what an attempt raised, and the state
-- machine of `CircuitBreakerHelper` (asyncio_gateway/helpers/internal/circuit_breaker_helper.py).
-- Clock readings and waits are whole nanoseconds.
pub mod Clock
pub mod Failures
pub mod Invariant
pub mod Counting
pub mod Trials
pub mod Refusals
pub mod Attempt
pub mod Run
pub mod Tasks
use async_gateway.Prelude.{ℕ, ◌+◌, Bool, true, false, Option, none, some, leb, if◌then◌else◌}
use async_gateway.Values.Floats.{Float}
use async_gateway.Breaker.Clock.{elapsed_below}
use async_gateway.Breaker.Failures.{Failure}

pub data BreakerState : Type 0 where
  closed : BreakerState
  is_open : BreakerState
  half_open : BreakerState

-- What the facade asks of a `pyfailsafe` `RetryPolicy`. `should_abort`, `is_retriable` and
-- `for_attempt` are that library's.
pub record Policy : Type 0 where
  pub allowed_retries : ℕ
  pub should_abort : Failure → Bool
  pub is_retriable : Failure → Bool
  pub for_attempt : ℕ → ℕ

-- A caller's callback, as what its call after the given attempt raises, if anything.
abbrev pub Callback : Type 0
Callback = ℕ → Option Failure

pub record Breaker : Type 0 where
  pub maximum_failures : ℕ
  pub reset_timeout : Float
  pub retry_policy : Option Policy
  pub on_retries_exhausted : Option Callback
  pub on_failed_attempt : Option Callback
  pub on_abort : Option Callback
  pub state : BreakerState
  pub failures : ℕ
  pub opened_at : ℕ
  pub trial_taken : Bool

-- Claiming the one trial of a half-open circuit.
abbrev pub claim_trial : Breaker → Breaker × Bool
claim_trial b = if b.trial_taken then (b, false) else (record b { trial_taken = true }, true)

-- The branch on `self.state`, with the OPEN circuit's turn to HALF_OPEN.
pub admit : BreakerState → ℕ → Breaker → Breaker × Bool
admit closed now b = (b, true)
admit is_open now b =
    if elapsed_below now b.opened_at b.reset_timeout
    then (b, false)
    else claim_trial (record b { state = half_open; trial_taken = false })
admit half_open now b = claim_trial b

-- `allows_execution`, with the clock's reading.
unfoldable pub allows_execution : ℕ → Breaker → Breaker × Bool
unfolding admit
allows_execution now b = admit b.state now b

unfoldable pub record_success : Breaker → Breaker
record_success b = record b { state = closed; failures = 0 }

-- `_open`
pub open_circuit : ℕ → Breaker → Breaker
open_circuit now b = record b { state = is_open; opened_at = now; failures = 0 }

pub count_failure : BreakerState → ℕ → Breaker → Breaker
unfolding open_circuit
count_failure half_open now b = open_circuit now b
count_failure s now b =
    let counted : Breaker = record b { failures = b.failures + 1 } in
    if leb counted.maximum_failures counted.failures then open_circuit now counted else counted

unfoldable pub record_failure : ℕ → Breaker → Breaker
unfolding count_failure
record_failure now b = count_failure b.state now b

-- The `finally` of `run`.
abbrev pub release_trial : Bool → Breaker → Breaker
release_trial trialling b = if trialling then record b { trial_taken = false } else b

abbrev pub is_half_open : BreakerState → Bool
is_half_open half_open = true
is_half_open _ = false

-- `CircuitBreakerHelper.__init__`
abbrev pub new_breaker :
    ℕ → Float → Option Policy → Option Callback → Option Callback → Option Callback → Breaker
new_breaker maximum_failures reset_timeout policy on_exhausted on_failed on_abort = record {
  maximum_failures = maximum_failures;
  reset_timeout = reset_timeout;
  retry_policy = policy;
  on_retries_exhausted = on_exhausted;
  on_failed_attempt = on_failed;
  on_abort = on_abort;
  state = closed;
  failures = 0;
  opened_at = 0;
  trial_taken = false;
}
