-- ===== src/Gateway/Whole.antt =====
-- The key set of the envelope that `request` returns (asyncio_gateway/asyncio_gateway.py).
use async_gateway.Prelude.{
  ℕ, String, true, ◌≡◌, refl, Option, none, some, List, [], ◌∷◌, ◌++◌, arith, Dict, lookup, put,
  has_key, has_key-put, all,
}
use async_gateway.Values.{Value, text, Result, ok, err}
use async_gateway.Errors.{ErrorClass}
use async_gateway.Gateway.{Host, Raised, gateway, recursion, foreign, cancelled}
use async_gateway.Gateway.Envelope.{
  is_whole_envelope, envelope_keys, new_envelope, finalise_error, seal, redacted,
}
use async_gateway.Gateway.Checks.{Ran, returned, failed, run_processor, checked_envelope}
use async_gateway.Gateway.Targets.{dispatch_url_for}
use async_gateway.Gateway.Prepared.{Processor, Prepared, Arguments, prepare}
use async_gateway.Gateway.Request.{
  Event, constructed, processed, controlling, Ends, answered, write_all, finish, settle, dispatch,
  start, started, request, finished, checked, built, aimed, whole, preceded,
}

has_all-put :
    (k : String) (v : Value) (env : Dict Value) (names : List String)
    → all (λ n. has_key n env) names ≡ true
    → all (λ n. has_key n (put k v env)) names ≡ true
has_all-put k v env [] h = refl
has_all-put k v env (n ∷ names) h = ground (arith, has_key-put k n v env, has_all-put k v env names)

put-whole :
    (k : String) (v : Value) (env : Dict Value)
    → is_whole_envelope env ≡ true
    → is_whole_envelope (put k v env) ≡ true
unfolding is_whole_envelope
put-whole k v env h = has_all-put k v env envelope_keys h

write_all-whole :
    (writes env : Dict Value)
    → is_whole_envelope env ≡ true
    → is_whole_envelope (write_all writes env) ≡ true
write_all-whole [] env h = h
write_all-whole ((k, v) ∷ writes) env h = write_all-whole writes (put k v env) (put-whole k v env h)

redacted-whole :
    (host : Host) (payload : Option Value) (env : Dict Value)
    → is_whole_envelope env ≡ true
    → is_whole_envelope (redacted host payload env) ≡ true
redacted-whole host none env h = h
redacted-whole host (some p) env h = put-whole "payload" (host.redact_payload p) env h

seal-whole :
    (host : Host) (status : ℕ) (env : Dict Value)
    → is_whole_envelope env ≡ true
    → is_whole_envelope (seal host status env) ≡ true
unfolding seal
seal-whole host status env h = redacted-whole host _ _ (put-whole _ _ _ (put-whole _ _ env h))

finalise_error-whole :
    (host : Host) (names : Option Value) (class : ErrorClass) (status id : ℕ) (env : Dict Value)
    → is_whole_envelope env ≡ true
    → is_whole_envelope (finalise_error host names class status id env) ≡ true
unfolding finalise_error
finalise_error-whole host names class status id env h =
    seal-whole host status _ (put-whole _ _ _ (put-whole _ _ env h))

-- Where the run returns an envelope, the envelope is whole.
abbrev pub IsWhole : Ends → Type 0
IsWhole (answered env) = is_whole_envelope env ≡ true
IsWhole _ = Unit

checked-whole :
    (host : Host) (dispatch_ : Option (Dict String)) (env : Dict Value)
    → checked_envelope host dispatch_ env ≡ none
    → is_whole_envelope env ≡ true
unfolding checked_envelope
checked-whole host dispatch_ env h = ground arith

checked-IsWhole :
    (host : Host) (events : List Event) (env : Dict Value) (o : Option Raised)
    → (o ≡ none → is_whole_envelope env ≡ true)
    → IsWhole (checked events env o).1
checked-IsWhole host events env none h = h refl
checked-IsWhole host events env (some r) h = tt

finish-IsWhole :
    (host : Host) (post : Option Processor) (events : List Event) (env : Dict Value)
    → is_whole_envelope env ≡ true
    → IsWhole (finish host post events env).1
unfolding finish
finish-IsWhole host none events env h = h
finish-IsWhole host (some p) events env h = go (run_processor host p env)
  where
    go : (r : Ran) → IsWhole (finished host events p.0 r).1
    go (failed r) = tt
    go (returned v left) =
        checked-IsWhole host _ (put "post_processor_response" v left) _
          (checked-whole host none (put "post_processor_response" v left))

settle-IsWhole :
    (host : Host) (p : Prepared) (events : List Event) (env : Dict Value) (failure : Option Raised)
    → is_whole_envelope env ≡ true
    → IsWhole (settle host p events env failure).1
unfolding settle
settle-IsWhole host p events env none h = finish-IsWhole host p.post_processor _ env h
settle-IsWhole host p events env (some (gateway class status id)) h =
    finish-IsWhole host p.post_processor _ _ (finalise_error-whole host _ class status id env h)
settle-IsWhole host p events env (some (recursion id)) h =
    finish-IsWhole host p.post_processor _ _ (finalise_error-whole host _ _ _ _ env h)
settle-IsWhole host p events env (some (foreign id)) h = tt
settle-IsWhole host p events env (some (cancelled id)) h = tt

built-IsWhole :
    (host : Host) (auth : Value) (p : Prepared) (events : List Event) (target : String)
    (env : Dict Value) (failure : Option Raised)
    → is_whole_envelope env ≡ true
    → IsWhole (built host auth p events target env failure).1
built-IsWhole host auth p events target env (some r) h = tt
built-IsWhole host auth p events target env none h =
    let worked = (host.strategy p.protocol).handle target auth p.info env in
    settle-IsWhole host p events (write_all worked.writes env) worked.failure
      (write_all-whole worked.writes env h)

dispatch-IsWhole :
    (host : Host) (auth : Value) (p : Prepared) (events : List Event) (env : Dict Value)
    → is_whole_envelope env ≡ true
    → IsWhole (dispatch host auth p events env).1
unfolding dispatch
dispatch-IsWhole host auth p events env h =
    go (dispatch_url_for host.texts host.urls p.protocol p.url)
  where
    go : (r : Result String) → IsWhole (aimed host auth p events env r).1
    go (err e) = tt
    go (ok target) =
        let env' =
          put "url" (text (host.redact_url (lookup "redact_query_params" p.info) target)) env in
        let worked = (host.strategy p.protocol).construct target auth p.info env' in
        built-IsWhole host auth p (events ++ constructed p.protocol target env' ∷ []) target
          (write_all worked.writes env') worked.failure
          (write_all-whole worked.writes env' (put-whole _ _ env h))

preceded-IsWhole :
    (host : Host) (auth : Value) (p : Prepared) (f : Value) (r : Ran)
    → IsWhole (preceded host auth p f r).1
preceded-IsWhole host auth p f (failed r) = tt
preceded-IsWhole host auth p f (returned v env) =
    go (checked_envelope host (some (controlling host p)) env')
      (checked-whole host (some (controlling host p)) env')
  where
    env' : Dict Value
    env' = put "pre_processor_response" v env

    go :
        (o : Option Raised)
        → (o ≡ none → is_whole_envelope env' ≡ true)
        → IsWhole (whole host auth p (processed f ∷ []) env' o).1
    go none h = dispatch-IsWhole host auth p (processed f ∷ []) env' (h refl)
    go (some r) h = tt

start-IsWhole :
    (host : Host) (auth : Value) (p : Prepared) (pre : Option Processor) (env : Dict Value)
    → is_whole_envelope env ≡ true
    → IsWhole (start host auth p pre env).1
unfolding start
start-IsWhole host auth p none env h = dispatch-IsWhole host auth p [] env h
start-IsWhole host auth p (some f) env h =
    preceded-IsWhole host auth p f.0 (run_processor host f env)

new_envelope-whole :
    (host : Host) (names : Option Value) (url protocol : String) (payload : Value)
    → is_whole_envelope (new_envelope host names url protocol payload) ≡ true
unfolding is_whole_envelope new_envelope has_key
new_envelope-whole host names url protocol payload = refl

-- Where `request` returns an envelope, it has every key of a `GatewayResponse`, whatever the
-- processors removed or wrote and however the call went.
pub request-IsWhole : (host : Host) (a : Arguments) → IsWhole (request host a).1
unfolding request
request-IsWhole host a = go (prepare host a)
  where
    go : (r : Result Prepared) → IsWhole (started host a.auth r).1
    go (err e) = tt
    go (ok p) =
        start-IsWhole host a.auth p p.pre_processor _
          (new_envelope-whole host (lookup "redact_query_params" p.info) p.url p.protocol p.payload)
