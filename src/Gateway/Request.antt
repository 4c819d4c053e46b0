-- ===== src/Gateway/Request.antt =====
-- `request` (asyncio_gateway/asyncio_gateway.py): the processors, the dispatch and the one place where
-- an error becomes an envelope. What happens is a list of events.
use async_gateway.Prelude.{
  String, Bool, Option, none, some, List, [], ◌∷◌, ◌++◌, Dict, lookup, put, contains,
}
use async_gateway.Values.{Value, text, Refusal, Result, ok, err}
use async_gateway.Errors.{stack_exhausted_error, status_code, class_code, warning_codes}
use async_gateway.Gateway.{Host, Raised, gateway, recursion, foreign, cancelled}
use async_gateway.Gateway.Envelope.{new_envelope, finalise_error}
use async_gateway.Gateway.Checks.{Ran, returned, failed, run_processor, checked_envelope}
use async_gateway.Gateway.Targets.{dispatch_url_for}
use async_gateway.Gateway.Prepared.{Processor, Prepared, Arguments, prepare}

-- A processor ran; the client of a protocol was constructed for a URL over an envelope; it handled
-- the request; a failure was logged, as a warning or as an error.
pub data Event : Type 0 where
  processed : Value → Event
  constructed : (protocol url : String) → (env : Dict Value) → Event
  handled : Event
  logged : (is_warning : Bool) → Event

-- A `ConfigurationError` or a host's error that was raised before dispatch; what else was raised; or
-- the envelope.
pub data Ends : Type 0 where
  refused : Refusal → Ends
  raised : Raised → Ends
  answered : Dict Value → Ends

abbrev pub Story : Type 0
Story = List Event × Ends

abbrev pub write_all : Dict Value → Dict Value → Dict Value
write_all [] env = env
write_all ((k, v) ∷ writes) env = write_all writes (put k v env)

abbrev pub checked : List Event → Dict Value → Option Raised → Story
checked events env none = (events, answered env)
checked events env (some r) = (events, raised r)

abbrev pub finished : Host → List Event → Value → Ran → Story
finished host events f (failed r) = (events ++ processed f ∷ [], raised r)
finished host events f (returned v env) =
    let env' = put "post_processor_response" v env in
    checked (events ++ processed f ∷ []) env' (checked_envelope host none env')

-- The post-processor, and the return.
unfoldable pub finish : Host → Option Processor → List Event → Dict Value → Story
unfolding run_processor checked_envelope
finish host none events env = (events, answered env)
finish host (some p) events env = finished host events p.0 (run_processor host p env)

abbrev is_warning : String → Bool
is_warning code = contains warning_codes code

-- What `handle_request` raised or returned, with the envelope as it left it.
unfoldable pub settle : Host → Prepared → List Event → Dict Value → Option Raised → Story
unfolding finalise_error status_code class_code warning_codes
settle host p events env none = finish host p.post_processor (events ++ handled ∷ []) env
settle host p events env (some (gateway class status id)) =
    finish host p.post_processor (events ++ handled ∷ logged (is_warning (class_code class)) ∷ [])
      (finalise_error host (lookup "redact_query_params" p.info) class status id env)
settle host p events env (some (recursion id)) =
    finish host p.post_processor
      (events ++ handled ∷ logged (is_warning (class_code stack_exhausted_error)) ∷ [])
      (finalise_error host (lookup "redact_query_params" p.info) stack_exhausted_error
        (status_code stack_exhausted_error none) (host.raise_new stack_exhausted_error (some id))
        env)
settle host p events env (some (foreign id)) = (events ++ handled ∷ [], raised (foreign id))
settle host p events env (some (cancelled id)) = (events ++ handled ∷ [], raised (cancelled id))

-- A constructor's failure is raised as it is.
abbrev pub built :
    Host → Value → Prepared → List Event → String → Dict Value → Option Raised → Story
built host auth p events target env (some r) = (events, raised r)
built host auth p events target env none =
    let worked = (host.strategy p.protocol).handle target auth p.info env in
    settle host p events (write_all worked.writes env) worked.failure

abbrev pub aimed : Host → Value → Prepared → List Event → Dict Value → Result String → Story
aimed host auth p events env (err e) = (events, refused e)
aimed host auth p events env (ok target) =
    let env' =
      put "url" (text (host.redact_url (lookup "redact_query_params" p.info) target)) env in
    let worked = (host.strategy p.protocol).construct target auth p.info env' in
    built host auth p (events ++ constructed p.protocol target env' ∷ []) target
      (write_all worked.writes env') worked.failure

-- The dispatch: the URL, the constructor, `handle_request`.
unfoldable pub dispatch : Host → Value → Prepared → List Event → Dict Value → Story
unfolding settle dispatch_url_for
dispatch host auth p events env =
    aimed host auth p events env (dispatch_url_for host.texts host.urls p.protocol p.url)

abbrev pub whole : Host → Value → Prepared → List Event → Dict Value → Option Raised → Story
whole host auth p events env none = dispatch host auth p events env
whole host auth p events env (some r) = (events, raised r)

abbrev pub controlling : Host → Prepared → Dict String
controlling host p =
    ("protocol", p.protocol)
    ∷ ("url", host.redact_url (lookup "redact_query_params" p.info) p.url)
    ∷ []

abbrev pub preceded : Host → Value → Prepared → Value → Ran → Story
preceded host auth p f (failed r) = (processed f ∷ [], raised r)
preceded host auth p f (returned v env) =
    let env' = put "pre_processor_response" v env in
    whole host auth p (processed f ∷ []) env'
      (checked_envelope host (some (controlling host p)) env')

-- The pre-processor on the new envelope, and the rest.
unfoldable pub start : Host → Value → Prepared → Option Processor → Dict Value → Story
unfolding dispatch
start host auth p none env = dispatch host auth p [] env
start host auth p (some f) env = preceded host auth p f.0 (run_processor host f env)

abbrev pub started : Host → Value → Result Prepared → Story
started host auth (err e) = ([], refused e)
started host auth (ok p) =
    start host auth p p.pre_processor
      (new_envelope host (lookup "redact_query_params" p.info) p.url p.protocol p.payload)

unfoldable pub request : Host → Arguments → Story
unfolding prepare start new_envelope
request host a = started host a.auth (prepare host a)
