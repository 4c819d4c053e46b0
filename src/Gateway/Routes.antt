-- ===== src/Gateway/Routes.antt =====
-- Where a call is dispatched to (asyncio_gateway/asyncio_gateway.py).
use async_gateway.Prelude.{
  String, true, ◌≡◌, refl, sym, ap, ◌∙◌, Option, none, some, List, [], ◌∷◌, ◌++◌, arith, Dict,
  lookup, put, lookup-put, lookup-put_self, All, All-append, eq_iff,
}
use async_gateway.Values.{
  Value, none_value, bool, int, float, bytes, list, dict, function, exception_class, object, text,
  Result, ok, err,
}
use async_gateway.Gateway.{Host, Raised, gateway, recursion, foreign, cancelled}
use async_gateway.Gateway.Envelope.{new_envelope}
use async_gateway.Gateway.Checks.{Ran, returned, failed, run_processor, checked_envelope, is_text}
use async_gateway.Gateway.Targets.{dispatch_url_for}
use async_gateway.Gateway.Prepared.{Processor, Prepared, Arguments, prepare}
use async_gateway.Gateway.Request.{
  Event, processed, constructed, handled, logged, write_all, finish, settle, dispatch, start,
  request, finished, checked, built, aimed, whole, preceded, controlling,
}

-- A client is constructed for the protocol that the arguments name and the URL that they give, over an
-- envelope that has both.
abbrev pub IsRouted : Host → Prepared → Event → Type 0
IsRouted host p (constructed protocol target env) =
    (protocol ≡ p.protocol)
    × (dispatch_url_for host.texts host.urls p.protocol p.url ≡ ok target)
    × (lookup "protocol" env ≡ some (text p.protocol))
    × (lookup "url" env
        ≡ some (text (host.redact_url (lookup "redact_query_params" p.info) target)))
IsRouted host p _ = Unit

abbrev AreRouted : Host → Prepared → List Event → Type 0
AreRouted host p events = All (IsRouted host p) events

is_text-lookup : (s : String) (o : Option Value) → is_text s o ≡ true → o ≡ some (text s)
is_text-lookup s none h = cc
is_text-lookup s (some (text r)) h = ap (λ x. some (text x)) (sym ((eq_iff s r).0 h))
is_text-lookup s (some none_value) h = cc
is_text-lookup s (some (bool b)) h = cc
is_text-lookup s (some (int n)) h = cc
is_text-lookup s (some (float x)) h = cc
is_text-lookup s (some (bytes b)) h = cc
is_text-lookup s (some (list l)) h = cc
is_text-lookup s (some (dict d)) h = cc
is_text-lookup s (some (function f)) h = cc
is_text-lookup s (some (exception_class c)) h = cc
is_text-lookup s (some (object o)) h = cc

module _ (host : Host) (p : Prepared) where
  checked-AreRouted :
      (events : List Event) (env : Dict Value) (o : Option Raised)
      → AreRouted host p events
      → AreRouted host p (checked events env o).0
  checked-AreRouted events env none h = h
  checked-AreRouted events env (some r) h = h

  finish-AreRouted :
      (post : Option Processor) (events : List Event) (env : Dict Value)
      → AreRouted host p events
      → AreRouted host p (finish host post events env).0
  unfolding finish
  finish-AreRouted none events env h = h
  finish-AreRouted (some f) events env h = go (run_processor host f env)
    where
      go : (r : Ran) → AreRouted host p (finished host events f.0 r).0
      go (failed r) = All-append (IsRouted host p) events (processed f.0 ∷ []) h (tt, tt)
      go (returned v left) =
          checked-AreRouted (events ++ processed f.0 ∷ []) _ _
            (All-append (IsRouted host p) events (processed f.0 ∷ []) h (tt, tt))

  settle-AreRouted :
      (events : List Event) (env : Dict Value) (failure : Option Raised)
      → AreRouted host p events
      → AreRouted host p (settle host p events env failure).0
  unfolding settle
  settle-AreRouted events env none h =
      finish-AreRouted p.post_processor _ env
        (All-append (IsRouted host p) events (handled ∷ []) h (tt, tt))
  settle-AreRouted events env (some (gateway class status id)) h =
      finish-AreRouted p.post_processor _ _
        (All-append (IsRouted host p) events (handled ∷ logged _ ∷ []) h (tt, (tt, tt)))
  settle-AreRouted events env (some (recursion id)) h =
      finish-AreRouted p.post_processor _ _
        (All-append (IsRouted host p) events (handled ∷ logged _ ∷ []) h (tt, (tt, tt)))
  settle-AreRouted events env (some (foreign id)) h =
      All-append (IsRouted host p) events (handled ∷ []) h (tt, tt)
  settle-AreRouted events env (some (cancelled id)) h =
      All-append (IsRouted host p) events (handled ∷ []) h (tt, tt)

  built-AreRouted :
      (auth : Value) (events : List Event) (target : String) (env : Dict Value)
      (failure : Option Raised)
      → AreRouted host p events
      → AreRouted host p (built host auth p events target env failure).0
  built-AreRouted auth events target env (some r) h = h
  built-AreRouted auth events target env none h =
      let worked = (host.strategy p.protocol).handle target auth p.info env in
      settle-AreRouted events (write_all worked.writes env) worked.failure h

  dispatch-AreRouted :
      (auth : Value) (events : List Event) (env : Dict Value)
      → lookup "protocol" env ≡ some (text p.protocol)
      → AreRouted host p events
      → AreRouted host p (dispatch host auth p events env).0
  unfolding dispatch
  dispatch-AreRouted auth events env named h =
      go (dispatch_url_for host.texts host.urls p.protocol p.url) refl
    where
      go :
          (r : Result String)
          → dispatch_url_for host.texts host.urls p.protocol p.url ≡ r
          → AreRouted host p (aimed host auth p events env r).0
      go (err e) q = h
      go (ok target) q =
          let url = text (host.redact_url (lookup "redact_query_params" p.info) target) in
          let env' = put "url" url env in
          let worked = (host.strategy p.protocol).construct target auth p.info env' in
          built-AreRouted auth (events ++ constructed p.protocol target env' ∷ []) target
            (write_all worked.writes env') worked.failure
            (All-append (IsRouted host p) events (constructed p.protocol target env' ∷ []) h (
              (refl, q, lookup-put "url" "protocol" url env ∙ named, lookup-put_self "url" url env),
              tt,
            ))

  checked-protocol :
      (env : Dict Value)
      → checked_envelope host (some (controlling host p)) env ≡ none
      → lookup "protocol" env ≡ some (text p.protocol)
  unfolding checked_envelope
  checked-protocol env h = is_text-lookup p.protocol (lookup "protocol" env) (ground arith)

  preceded-AreRouted : (auth f : Value) (r : Ran) → AreRouted host p (preceded host auth p f r).0
  preceded-AreRouted auth f (failed r) = (tt, tt)
  preceded-AreRouted auth f (returned v left) =
      go (checked_envelope host (some (controlling host p)) env') (checked-protocol env')
    where
      env' : Dict Value
      env' = put "pre_processor_response" v left

      go :
          (o : Option Raised)
          → (o ≡ none → lookup "protocol" env' ≡ some (text p.protocol))
          → AreRouted host p (whole host auth p (processed f ∷ []) env' o).0
      go none named = dispatch-AreRouted auth (processed f ∷ []) env' (named refl) (tt, tt)
      go (some r) named = (tt, tt)

  start-AreRouted :
      (auth : Value) (pre : Option Processor) (env : Dict Value)
      → lookup "protocol" env ≡ some (text p.protocol)
      → AreRouted host p (start host auth p pre env).0
  unfolding start
  start-AreRouted auth none env named = dispatch-AreRouted auth [] env named tt
  start-AreRouted auth (some f) env named = preceded-AreRouted auth f.0 (run_processor host f env)

-- Whatever a pre-processor writes, every client that `request` constructs is that of the protocol
-- that the arguments name, for the URL that they give, over an envelope that still has both.
pub request-AreRouted :
    (host : Host) (a : Arguments) (p : Prepared)
    → prepare host a ≡ ok p
    → All (IsRouted host p) (request host a).0
unfolding request new_envelope lookup
request-AreRouted host a p h =
    rw (h, request) (start-AreRouted host p a.auth p.pre_processor _ refl)
