-- ===== src/Breaker/Run.antt =====
-- `CircuitBreakerHelper.run` as a whole, for one caller: the `while True` loop, driven from one await
-- to the next. What the call and the clock give at each attempt is a sequence of turns. The loop
-- takes fuel; `Run.Termination` has how much is enough.
pub mod Termination
pub mod Results
pub mod Exhausted
pub mod Raised
pub mod Sources
use async_gateway.Prelude.{ℕ, zero, suc, ◌+◌, Option, none, some}
use async_gateway.Breaker.{Breaker}
use async_gateway.Breaker.Attempt.{
  Outcome, Reply, Phase, ready, calling, backing_off, finished, begin, settle, wake,
}

pub record Turn {ℓ} (A : Type ℓ) : Type ℓ where
  -- the clock at the head of the loop
  pub entered : ℕ
  pub reply : Reply A
  -- the clock when the call has ended
  pub settled : ℕ

module _ {ℓ} {A : Type ℓ} where
  -- One more call has been made after the phase.
  abbrev pub calls_after : Phase A → ℕ → ℕ
  calls_after (calling n recent trialling) calls = suc calls
  calls_after _ calls = calls

module _ {ℓ} {A : Type ℓ} (turns : ℕ → Turn A) where
  -- From one await to the next; `turns n` is the attempt number `n`, counted from 1.
  unfoldable pub advance : Phase A → Breaker → Phase A × Breaker
  unfolding begin settle wake
  advance (ready n recent) b = begin (turns (suc n)).entered n recent b
  advance (calling n recent trialling) b = settle (turns n).settled n trialling (turns n).reply b
  advance (backing_off n recent trialling wait) b = wake n recent trialling b
  advance (finished o) b = (finished o, b)

  -- `none` means that the fuel ran out. The number is that of the calls made.
  pub drive : ℕ → Phase A → ℕ → Breaker → Option (Outcome A × Breaker × ℕ)
  drive zero p calls b = none
  drive (suc fuel) (finished o) calls b = some (o, b, calls)
  drive (suc fuel) p calls b = let (p', b') = advance p b in drive fuel p' (calls_after p calls) b'

  unfoldable pub run : ℕ → Breaker → Option (Outcome A × Breaker × ℕ)
  unfolding drive advance
  run fuel b = drive fuel (ready 0 none) 0 b
