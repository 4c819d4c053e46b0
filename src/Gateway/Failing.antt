-- ===== src/Gateway/Failing.antt =====
-- What becomes of an error of `handle_request` (asyncio_gateway/asyncio_gateway.py,
-- asyncio_gateway/utils/envelope.py).
use async_gateway.Prelude.{
  ℕ, String, false, ◌≡◌, refl, subst, ◌∙◌, Option, none, some, List, [], ◌∷◌, arith, Dict, lookup,
  put, lookup-put, lookup-put_self, ◌==◌, contains,
}
use async_gateway.Prelude.Int.{pos}
use async_gateway.Values.{Value, bool, int, float}
use async_gateway.Errors.{ErrorClass, status_code, stack_exhausted_error}
use async_gateway.Errors.Chain.{unwrap_cause}
use async_gateway.Gateway.{Host, Raised, gateway, recursion, foreign, cancelled}
use async_gateway.Gateway.Envelope.{finalise_error, seal, redacted, error_of}
use async_gateway.Gateway.Prepared.{Prepared}
use async_gateway.Gateway.Request.{Event, answered, settle, finish}

-- The keys that closing an envelope as a failure writes.
abbrev pub closing_keys : List String
closing_keys = "ok" ∷ "error" ∷ "status_code" ∷ "latency" ∷ "payload" ∷ []

redacted-lookup :
    (host : Host) (o : Option Value) (env : Dict Value) (k : String)
    → ("payload" == k) ≡ false
    → lookup k (redacted host o env) ≡ lookup k env
redacted-lookup host none env k h = refl
redacted-lookup host (some v) env k h =
    ground (arith, lookup-put "payload" k (host.redact_payload v) env)

pub seal-lookup :
    (host : Host) (status : ℕ) (env : Dict Value) (k : String)
    → contains ("latency" ∷ "payload" ∷ []) k ≡ false
    → lookup k (seal host status env) ≡ lookup k (put "status_code" (int (pos status)) env)
unfolding seal
seal-lookup host status env k h =
    let coded = put "status_code" (int (pos status)) env in
    let timed = put "latency" (float host.elapsed) coded in
    redacted-lookup host (lookup "payload" timed) timed k (ground arith)
    ∙ ground (arith, lookup-put "latency" k (float host.elapsed) coded)

-- Closing an envelope as a failure leaves every key as the protocol wrote it, except `ok`, `error`,
-- the status, the latency and the payload.
pub finalise_error-kept :
    (host : Host) (names : Option Value) (class : ErrorClass) (status id : ℕ) (env : Dict Value)
    (k : String)
    → contains closing_keys k ≡ false
    → lookup k (finalise_error host names class status id env) ≡ lookup k env
unfolding finalise_error
finalise_error-kept host names class status id env k h =
    let (message, cause) = unwrap_cause (host.redact_text names) host.store id host.max_depth in
    let opened = put "ok" (bool false) env in
    let erred = put "error" (error_of class message cause) opened in
    seal-lookup host status erred k (ground arith)
    ∙ ground (
      arith,
      lookup-put "status_code" k (int (pos status)) erred,
      lookup-put "error" k (error_of class message cause) opened,
      lookup-put "ok" k (bool false) env,
    )

-- The error that an exception of `handle_request` is reported as: its class, status and object.
abbrev pub error_in : Host → Raised → Option (ErrorClass × ℕ × ℕ)
error_in host (gateway class status id) = some (class, status, id)
error_in host (recursion id) = some (
  stack_exhausted_error,
  status_code stack_exhausted_error none,
  host.raise_new stack_exhausted_error (some id),
)
error_in host (foreign id) = none
error_in host (cancelled id) = none

-- A failed call's envelope: `ok` is false, and the status and the error are those of the exception,
-- with the message and the cause of its chain.
abbrev pub IsFailure : Host → Option Value → ErrorClass → ℕ → ℕ → Dict Value → Type 0
IsFailure host names class status id env =
    (lookup "ok" env ≡ some (bool false))
    × (lookup "status_code" env ≡ some (int (pos status)))
    × (lookup "error" env
        ≡ some (
            error_of class (unwrap_cause (host.redact_text names) host.store id host.max_depth).0
              (unwrap_cause (host.redact_text names) host.store id host.max_depth).1))

finalise_error-IsFailure :
    (host : Host) (names : Option Value) (class : ErrorClass) (status id : ℕ) (env : Dict Value)
    → IsFailure host names class status id (finalise_error host names class status id env)
unfolding finalise_error
finalise_error-IsFailure host names class status id env =
    let (message, cause) = unwrap_cause (host.redact_text names) host.store id host.max_depth in
    let opened = put "ok" (bool false) env in
    let erred = put "error" (error_of class message cause) opened in
    let coded = int (pos status) in
    (
      seal-lookup host status erred "ok" refl
          ∙ lookup-put "status_code" "ok" coded erred
          ∙ lookup-put "error" "ok" (error_of class message cause) opened
          ∙ lookup-put_self "ok" (bool false) env,
      seal-lookup host status erred "status_code" refl ∙ lookup-put_self "status_code" coded erred,
      seal-lookup host status erred "error" refl
          ∙ lookup-put "status_code" "error" coded erred
          ∙ lookup-put_self "error" (error_of class message cause) opened,
    )

finish-none :
    (host : Host) (p : Prepared) (events : List Event) (env : Dict Value)
    → p.post_processor ≡ none
    → (finish host p.post_processor events env).1 ≡ answered env
unfolding finish
finish-none host p events env none_ = rw (none_, finish) refl

some_injective {ℓ} : {A : Type ℓ} {a b : A} → some a ≡ some b → a ≡ b
some_injective h = cc

reported :
    (host : Host) (p : Prepared) (events : List Event) (env : Dict Value) (c r : ErrorClass × ℕ × ℕ)
    → p.post_processor ≡ none
    → some c ≡ some r
    → (left : Dict Value) × ((finish host p.post_processor events
          (finalise_error host (lookup "redact_query_params" p.info) c.0 c.1 c.2 env)).1
        ≡ answered left)
      × IsFailure host (lookup "redact_query_params" p.info) r.0 r.1 r.2 left
reported host p events env c r none_ e =
    let names = lookup "redact_query_params" p.info in
    let left = finalise_error host names c.0 c.1 c.2 env in
    (
      left,
      finish-none host p events left none_,
      subst (λ x. IsFailure host names x.0 x.1 x.2 left) (some_injective e)
          (finalise_error-IsFailure host names c.0 c.1 c.2 env),
    )

-- Without a post-processor, each error of the package that `handle_request` raises, and a
-- `RecursionError`, becomes a returned envelope that reports it; nothing of it is raised.
pub settle-IsFailure :
    (host : Host) (p : Prepared) (events : List Event) (env : Dict Value) (r : Raised)
    (class : ErrorClass) (status id : ℕ)
    → p.post_processor ≡ none
    → error_in host r ≡ some (class, status, id)
    → (left : Dict Value) × ((settle host p events env (some r)).1 ≡ answered left)
      × IsFailure host (lookup "redact_query_params" p.info) class status id left
unfolding settle finish
settle-IsFailure host p events env (gateway c s i) class status id none_ e =
    reported host p _ env (c, s, i) (class, status, id) none_ e
settle-IsFailure host p events env (recursion i) class status id none_ e =
    reported host p _ env
      (
        stack_exhausted_error,
        status_code stack_exhausted_error none,
        host.raise_new stack_exhausted_error (some i),
      )
      (class, status, id) none_ e
settle-IsFailure host p events env (foreign i) class status id none_ e = cc
settle-IsFailure host p events env (cancelled i) class status id none_ e = cc
