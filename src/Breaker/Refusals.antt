-- ===== src/Breaker/Refusals.antt =====
-- The failures that are not the destination's: they leave the breaker as it was.
use async_gateway.Prelude.{
  ℕ, ◌≡◌, ◌⊎◌, inl, inr, Bool-cases, not, ◌&&◌, refl, Bool, true, false, arith, none, if◌then◌else◌,
}
use async_gateway.Errors.{
  ErrorClass, configuration_error, unsupported_verb_error, response_too_large_error,
  response_too_deep_error, local_write_error, path_containment_error, abortable_service_error,
  grpc_abortable_status_failure, is_subclass_of_any,
}
use async_gateway.Breaker.{Breaker, release_trial, record_failure}
use async_gateway.Breaker.Failures.{Failure, gateway, is_caught, is_default_abortable}
use async_gateway.Breaker.Attempt.{
  failed, finished, raised, policy_aborts, should_abort, should_retry, invoke, after_invoke, settle,
}

-- An exception outside `RETRIABLE_FAILURES`, or one that aborts, is not counted: the breaker keeps
-- its state, its count and its stamp, and only the trial that this call held is released. The
-- exception leaves `run` unchanged, unless the `on_abort` callback of an aborting one raises.
pub settle-refusal {ℓ} :
    {A : Type ℓ} (now n : ℕ) (trialling : Bool) (e : Failure) (b : Breaker)
    → (is_caught e ≡ true → should_abort b e ≡ true)
    → settle {A = A} now n trialling (failed e) b ≡ (
      (if is_caught e
          then after_invoke (invoke b.on_abort n) (finished (raised e))
          else finished (raised e)),
      release_trial trialling b,
    )
unfolding settle
settle-refusal now n trialling e b h = ground arith

-- The bound that a multipart response crosses, a refusal that the breaker does not list.
abbrev pub is_too_deep : ErrorClass → Bool
is_too_deep response_too_deep_error = true
is_too_deep _ = false

-- The package's classes that stand for its own refusals, of a configuration, of a verb, of a response,
-- of a local path, and those of its service clients.
abbrev pub is_refusal : ErrorClass → Bool
is_refusal configuration_error = true
is_refusal unsupported_verb_error = true
is_refusal response_too_large_error = true
is_refusal response_too_deep_error = true
is_refusal local_write_error = true
is_refusal path_containment_error = true
is_refusal abortable_service_error = true
is_refusal grpc_abortable_status_failure = true
is_refusal _ = false

is_default_abortable-gateway :
    (c : ErrorClass) (id : ℕ)
    → is_default_abortable (gateway c id) ≡ (is_refusal c && not (is_too_deep c))
unfolding is_default_abortable is_subclass_of_any
is_default_abortable-gateway ErrorClass.async_gateway_error id = refl
is_default_abortable-gateway _ id = refl

released : (t : Bool) (b : Breaker) → release_trial true (release_trial t b) ≡ release_trial true b
released true b = refl
released false b = refl

too_deep-counted {ℓ} :
    (A : Type ℓ) (now n : ℕ) (trialling : Bool) (c : ErrorClass) (id : ℕ) (b : Breaker)
    → is_too_deep c ≡ true
    → policy_aborts b.retry_policy (gateway c id) ≡ false
    → release_trial true (settle {A = A} now n trialling (failed (gateway c id)) b).1
      ≡ release_trial true (record_failure now b)
unfolding settle is_caught should_abort should_retry
too_deep-counted A now n trialling c id b deep h = ground (arith, is_default_abortable-gateway c id)

uncounted {ℓ} :
    {A : Type ℓ} (now n : ℕ) (trialling : Bool) (c : ErrorClass) (id : ℕ) (b : Breaker)
    → is_refusal c ≡ true
    → is_too_deep c ≡ false
    → settle {A = A} now n trialling (failed (gateway c id)) b ≡ (
      after_invoke (invoke b.on_abort n) (finished (raised (gateway c id))),
      release_trial trialling b,
    )
unfolding is_caught should_abort
uncounted now n trialling c id b h other =
    settle-refusal now n trialling (gateway c id) b
      (λ caught. ground (arith, is_default_abortable-gateway c id, h, other))

-- A refusal of the package leaves the breaker as it was, but for the trial that the call held, and
-- leaves `run` unchanged unless the `on_abort` callback raises, whatever the retry policy is: all but
-- the refusal of a response that is nested too deep, which is counted against the destination as a
-- failure of its own, where the policy does not abort on it.
pub settle-is_refusal {ℓ} :
    (A : Type ℓ) (now n : ℕ) (trialling : Bool) (c : ErrorClass) (id : ℕ) (b : Breaker)
    → is_refusal c ≡ true
    → (is_too_deep c ≡ true → policy_aborts b.retry_policy (gateway c id) ≡ false)
    → (release_trial true (settle {A = A} now n trialling (failed (gateway c id)) b).1
        ≡ release_trial true (if is_too_deep c then record_failure now b else b))
      × ((is_too_deep c ≡ true)
          ⊎ (settle {A = A} now n trialling (failed (gateway c id)) b ≡ (
            after_invoke (invoke b.on_abort n) (finished (raised (gateway c id))),
            release_trial trialling b,
          )))
settle-is_refusal A now n trialling c id b h kept = elim (Bool-cases (is_too_deep c)) [
  | inl deep ↦ rw deep (too_deep-counted A now n trialling c id b deep (kept deep), inl refl)
  | inr other ↦
      let left = uncounted {A = A} now n trialling c id b h other in
      rw (other, left) (released trialling b, inr refl)
]

-- A failure of any other class of the package is a destination's, and without a policy it is
-- counted, and ends the run.
pub settle-counted {ℓ} :
    (A : Type ℓ) (now n : ℕ) (trialling : Bool) (c : ErrorClass) (id : ℕ) (b : Breaker)
    → is_refusal c ≡ false
    → b.retry_policy ≡ none
    → (settle {A = A} now n trialling (failed (gateway c id)) b).1
      ≡ release_trial trialling (record_failure now b)
unfolding settle is_caught should_abort should_retry record_failure
settle-counted A now n trialling c id b h p = ground (arith, is_default_abortable-gateway c id)
