-- ===== src/Breaker/Tasks/Reachable.antt =====
-- What holds of the breaker in every state that the coroutines can reach.
use async_gateway.Prelude.{
  ℕ, ◌≡◌, Bool, true, false, ◌||◌, Option, List, [], ◌∷◌, ◌++◌, any, arith, ap, ◌⊎◌, inl,
}
use async_gateway.Breaker.{Breaker, is_half_open, allows_execution, record_failure, record_success}
use async_gateway.Breaker.Failures.{Failure}
use async_gateway.Breaker.Invariant.{IsValid, allows_execution-IsValid, record_failure-IsValid}
use async_gateway.Breaker.Attempt.{
  Reply, answered, failed, Phase, ready, calling, backing_off, begin, settle, wake, interrupt,
}
use async_gateway.Breaker.Tasks.{
  System, Step, arrives, begins, settles, wakes, is_cancelled, Reach, here, next, is_trialling,
  resumed,
}

module _ {ℓ} {A : Type ℓ} where
  any-middle :
      (before : List (Phase A)) (p : Phase A) (after : List (Phase A))
      → any is_trialling (before ++ p ∷ after)
        ≡ (is_trialling p || any is_trialling before || any is_trialling after)
  any-middle [] p after = ground arith
  any-middle (q ∷ before) p after = ground (arith, any-middle before p after)

  settle-IsValid :
      (now n : ℕ) (t : Bool) (reply : Reply A) (b : Breaker)
      → IsValid b
      → IsValid (settle now n t reply b).1
  unfolding settle record_success
  settle-IsValid now n t (answered a) b v = ground arith
  settle-IsValid now n t (failed e) b v = ground (arith, record_failure-IsValid now b v)

  Step-IsValid : {s u : System A} → Step s u → IsValid s.breaker → IsValid u.breaker
  unfolding begin wake interrupt
  Step-IsValid {s} (arrives e) v = ground arith
  Step-IsValid {s} (begins before after now n recent at e) v =
      ground (arith, allows_execution-IsValid now s.breaker v)
  Step-IsValid {s} (settles before after now n recent t reply at e) v =
      ground (arith, settle-IsValid now n t reply s.breaker v)
  Step-IsValid {s} (wakes before after n w e t at eq) v = ground arith
  Step-IsValid {s} (is_cancelled before after n w e c t at eq) v = ground arith

-- However the coroutines interleave, the failure count stays below the threshold.
pub Reach-IsValid {ℓ} :
    {A : Type ℓ} {s u : System A} → Reach s u → IsValid s.breaker → IsValid u.breaker
Reach-IsValid here v = v
Reach-IsValid (next r st) v = Step-IsValid st (Reach-IsValid r v)

-- A claimed trial belongs to a coroutine that is still in its attempt.
abbrev pub IsHeld {ℓ} : {A : Type ℓ} → System A → Type 0
IsHeld s = (s.breaker.trial_taken ≡ false) ⊎ (any is_trialling s.tasks ≡ true)

trial_taken-failure : (now : ℕ) (b : Breaker) → (record_failure now b).trial_taken ≡ b.trial_taken
unfolding record_failure
trial_taken-failure now b = ground arith

module _ {ℓ} {A : Type ℓ} where
  -- The task's step leaves the trial unclaimed, claims it for the task, or leaves it as it was for
  -- a task that does not hold it.
  abbrev Accounts : Phase A → Breaker → Phase A × Breaker → Type 0
  Accounts p b (p', b') =
      (b'.trial_taken ≡ false)
      ⊎ (is_trialling p' ≡ true)
      ⊎ ((is_trialling p ≡ false) × (b'.trial_taken ≡ b.trial_taken))

module _ {ℓ} (A : Type ℓ) where
  begin-Accounts :
      (now n : ℕ) (recent : Option Failure) (b : Breaker)
      → Accounts {A = A} (ready n recent) b (begin now n recent b)
  unfolding begin allows_execution
  begin-Accounts now n recent b = ground arith

  settle-Accounts :
      (now n : ℕ) (recent : Option Failure) (t : Bool) (reply : Reply A) (b : Breaker)
      → Accounts (calling n recent t) b (settle now n t reply b)
  unfolding settle record_success
  settle-Accounts now n recent t (answered a) b = ground arith
  settle-Accounts now n recent t (failed e) b = ground (arith, trial_taken-failure now b)

module _ {ℓ} {A : Type ℓ} where
  resumed-IsHeld :
      (s : System A) (before after : List (Phase A)) (p : Phase A) (r : Phase A × Breaker)
      → s.tasks ≡ before ++ p ∷ after
      → Accounts p s.breaker r
      → IsHeld s
      → IsHeld (resumed before after r)
  resumed-IsHeld s before after p (p', b') at acc h =
      ground
        (arith, any-middle before p after, any-middle before p' after, ap (any is_trialling) at)

  Step-IsHeld : {s u : System A} → Step s u → IsHeld s → IsHeld u
  unfolding wake interrupt
  Step-IsHeld {s} {u} (arrives e) h = ground arith
  Step-IsHeld {s} {u} (begins before after now n recent at e) h = rw e (
      resumed-IsHeld s before after (ready n recent) (begin now n recent s.breaker) at
        (begin-Accounts A now n recent s.breaker) h)
  Step-IsHeld {s} {u} (settles before after now n recent t reply at e) h = rw e (
      resumed-IsHeld s before after (calling n recent t) (settle now n t reply s.breaker) at
        (settle-Accounts A now n recent t reply s.breaker) h)
  Step-IsHeld {s} {u} (wakes before after n w e t at eq) h = rw eq (
      resumed-IsHeld s before after (backing_off n e t w) (wake n e t s.breaker) at (ground arith)
        h)
  Step-IsHeld {s} {u} (is_cancelled before after n w e c t at eq) h = rw eq (
      resumed-IsHeld s before after (backing_off n e t w) (interrupt c t s.breaker) at
        (ground arith) h)

  Reach-IsHeld : {s u : System A} → Reach s u → IsHeld s → IsHeld u
  Reach-IsHeld here h = h
  Reach-IsHeld (next r st) h = Step-IsHeld st (Reach-IsHeld r h)

-- No trial is lost: from a breaker whose trial is free, whatever answers, failures, refusals, waits
-- and cancellations follow, the trial is free again whenever no coroutine is in a trial attempt; and
-- then the circuit is not half-open, or it admits the next caller.
pub trial_free_again {ℓ} :
    {A : Type ℓ} (s u : System A) (now : ℕ)
    → Reach s u
    → s.breaker.trial_taken ≡ false
    → any is_trialling u.tasks ≡ false
    → (u.breaker.trial_taken ≡ false)
      × ((is_half_open u.breaker.state ≡ false) ⊎ ((allows_execution now u.breaker).1 ≡ true))
unfolding allows_execution
trial_free_again s u now r free none_left = ground (arith, Reach-IsHeld r (inl free))
