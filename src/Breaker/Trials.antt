-- ===== src/Breaker/Trials.antt =====
-- Who is admitted: the refusals of an open circuit and the one trial of a half-open circuit.
use async_gateway.Prelude.{
  ℕ, suc, ◌≤◌, ◌≡◌, ◌≢◌, ◌⊎◌, refl, sym, subst, Bool, true, false, not, ◌&&◌, ◌||◌, Option, List,
  [], ◌∷◌, arith, if◌then◌else◌, inl, inr, All,
}
use async_gateway.Breaker.Failures.{Failure, is_caught, is_default_abortable}
use async_gateway.Breaker.{Breaker, Policy, closed, half_open, allows_execution}
use async_gateway.Breaker.Attempt.{failed, settle, wake, policy_aborts, should_abort}

-- What happens to the breaker, one thing after another, each at its own reading of the clock: a caller
-- asks to be admitted, a call that holds no trial ends in an exception, or a wait that holds none ends.
pub data Event : Type 0 where
  asks : ℕ → Event
  ends : (now attempts : ℕ) → Failure → Event
  wakes : (attempts : ℕ) → Failure → Event

-- The breaker that is left, and whether a caller is admitted.
abbrev pub met : Event → Breaker → Breaker × Bool
met (asks now) b = allows_execution now b
met (ends now attempts e) b = ((settle {A = Unit {0}} now attempts false (failed e) b).1, false)
met (wakes attempts e) b = ((wake {A = Unit {0}} attempts e false b).1, false)

-- What ends is not counted: no failure that the breaker catches, or one on which it aborts.
abbrev pub IsUncounted : Option Policy → Event → Type 0
IsUncounted policy (ends now attempts e) =
    (is_caught e && not (is_default_abortable e || policy_aborts policy e)) ≡ false
IsUncounted policy _ = Unit

-- The number of callers that are admitted, and the breaker that is left.
pub admissions : List Event → Breaker → Breaker × ℕ
admissions [] b = (b, 0)
admissions (event ∷ later) b =
    let (b', admitted) = met event b in
    let (end, others) = admissions later b' in (end, if admitted then suc others else others)

ends-kept :
    (now attempts : ℕ) (e : Failure) (b : Breaker)
    → IsUncounted b.retry_policy (ends now attempts e)
    → met (ends now attempts e) b ≡ (b, false)
unfolding settle should_abort
ends-kept now attempts e b h = ground arith

abbrev NotClosed : Breaker → Type 0
NotClosed b = b.state ≢ closed

-- A breaker in a trial is left as it is.
met-held :
    (event : Event) (b : Breaker)
    → IsUncounted b.retry_policy event
    → b.state ≡ half_open
    → b.trial_taken ≡ true
    → met event b ≡ (b, false)
unfolding allows_execution wake
met-held (asks now) b u h t = ground arith
met-held (ends now attempts e) b u h t = ends-kept now attempts e b u
met-held (wakes attempts e) b u h t = refl

held-admissions :
    (events : List Event) (b : Breaker)
    → All (IsUncounted b.retry_policy) events
    → b.state ≡ half_open
    → b.trial_taken ≡ true
    → admissions events b ≡ (b, 0)
unfolding admissions
held-admissions [] b all h t = refl
held-admissions (event ∷ later) b (u, all) h t =
    rw (met-held event b u h t, held-admissions later b all h t) refl

-- Where a caller is admitted the trial is claimed, and where none is the circuit is still not closed;
-- the policy stays.
abbrev Claims : Breaker → Breaker × Bool → Type 0
Claims b (b', admitted) =
    (b'.retry_policy ≡ b.retry_policy)
    × NotClosed b'
    × ((admitted ≡ false) ⊎ ((b'.state ≡ half_open) × (b'.trial_taken ≡ true)))

met-Claims :
    (event : Event) (b : Breaker)
    → IsUncounted b.retry_policy event
    → NotClosed b
    → Claims b (met event b)
unfolding allows_execution wake
met-Claims (asks now) b u n = (ground arith, ground arith, ground arith)
met-Claims (ends now attempts e) b u n =
    subst (Claims b) (sym (ends-kept now attempts e b u)) (refl, n, inl refl)
met-Claims (wakes attempts e) b u n = (refl, n, inl refl)

-- However many callers ask an open or half-open circuit, and whenever they do, at most one of them is
-- admitted, until a call or a wait that holds a trial ends or an end of another call is counted: the
-- waits of other calls end meanwhile, and other calls end in exceptions that are no failures or on
-- which the breaker aborts.
pub admissions-le-one :
    (events : List Event) (b : Breaker)
    → All (IsUncounted b.retry_policy) events
    → NotClosed b
    → (admissions events b).1 ≤ 1
unfolding admissions
admissions-le-one [] b all n = omega arith
admissions-le-one (event ∷ later) b (u, all) n =
    let (same, open_, claimed) = met-Claims event b u n in
    let rest : All (IsUncounted (met event b).0.retry_policy) later =
      subst (λ p. All (IsUncounted p) later) (sym same) all in
    elim claimed [
      | inl refused ↦ rw refused (admissions-le-one later (met event b).0 rest open_)
      | inr (half, taken) ↦
          counted_once later (met event b).0 (met event b).1
            (held-admissions later (met event b).0 rest half taken)
    ]
  where
    counted_once :
        (later : List Event) (c : Breaker) (admitted : Bool)
        → admissions later c ≡ (c, 0)
        → (if admitted then suc (admissions later c).1 else (admissions later c).1) ≤ 1
    counted_once later c true h = rw h (omega arith)
    counted_once later c false h = rw h (omega arith)
