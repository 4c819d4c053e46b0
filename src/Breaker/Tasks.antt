-- ===== src/Breaker/Tasks.antt =====
-- Several coroutines in `CircuitBreakerHelper.run` on one breaker, interleaved at their awaits: the
-- event loop picks any coroutine that can go on, and any reading of the clock.
pub mod Reachable
pub mod Overlap
use async_gateway.Prelude.{
  ℕ, ◌≡◌, ◌≢◌, Bool, true, false, Option, none, some, List, [], ◌∷◌, ◌++◌, any,
}
use async_gateway.Breaker.Failures.{Failure}
use async_gateway.Breaker.{Breaker}
use async_gateway.Breaker.Attempt.{
  Reply, Phase, ready, calling, backing_off, finished, begin, settle, wake, interrupt,
}

module _ {ℓ} (A : Type ℓ) where
  pub record System : Type ℓ where
    pub breaker : Breaker
    pub tasks : List (Phase A)

module _ {ℓ} {A : Type ℓ} where
  -- The phase and the breaker that a task leaves at its next await.
  abbrev pub resumed : List (Phase A) → List (Phase A) → Phase A × Breaker → System A
  resumed before after (p, b) = record { breaker = b; tasks = before ++ p ∷ after }

  pub data Step (s u : System A) : Type ℓ where
    -- a new call of `run`
    arrives : u ≡ record s { tasks = ready 0 none ∷ s.tasks } → Step s u
    begins :
        (before after : List (Phase A)) (now n : ℕ) (recent : Option Failure)
        → s.tasks ≡ before ++ ready n recent ∷ after
        → u ≡ resumed before after (begin now n recent s.breaker)
        → Step s u
    settles :
        (before after : List (Phase A)) (now n : ℕ) (recent : Option Failure) (t : Bool)
        (reply : Reply A)
        → s.tasks ≡ before ++ calling n recent t ∷ after
        → u ≡ resumed before after (settle now n t reply s.breaker)
        → Step s u
    wakes :
        (before after : List (Phase A)) (n w : ℕ) (e : Failure) (t : Bool)
        → s.tasks ≡ before ++ backing_off n e t w ∷ after
        → u ≡ resumed before after (wake n e t s.breaker)
        → Step s u
    is_cancelled :
        (before after : List (Phase A)) (n w : ℕ) (e cancellation : Failure) (t : Bool)
        → s.tasks ≡ before ++ backing_off n e t w ∷ after
        → u ≡ resumed before after (interrupt cancellation t s.breaker)
        → Step s u

  pub data Reach (s : System A) : System A → Type ℓ where
    here : Reach s s
    next : {t u : System A} → Reach s t → Step t u → Reach s u

  -- The task holds the trial of a half-open circuit.
  abbrev pub is_trialling : Phase A → Bool
  is_trialling (calling n recent t) = t
  is_trialling (backing_off n e t w) = t
  is_trialling _ = false
