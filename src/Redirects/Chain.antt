-- ===== src/Redirects/Chain.antt =====
-- The redirect loop of `make_http_request`, with its trace events
-- (asyncio_gateway/helpers/internal/request_helper.py).
-- The transport, the clock, the factory of bodies and the reading of the last response are
-- parameters: what they give at each hop is a turn. The loop takes fuel; `Lengths` has how much is
-- enough.
use async_gateway.Prelude.{
  ℕ, zero, suc, ◌+◌, String, Bool, ◌&&◌, ◌||◌, Option, none, some, List, [], ◌∷◌, ◌==◌, leb, eqb,
  Dict, if◌then◌else◌,
}
use async_gateway.Redirects.Collectors.{
  Collector, RedirectEvent, measure_redirect, record_redirect, trace_all,
}
use async_gateway.Errors.{transport_error}
use async_gateway.Redirects.{
  gateway, value_error, Attempt, done, broke, http_verbs, resolve_verb, redirect_target,
  same_origin, cross_origin_headers, Timeout, hop_deadline, after_redirect,
}
use async_gateway.Values.Texts.{Texts, Urls}

-- The arguments of a call. Cookies, auth and parts of a body are known by an identity.
pub record Call : Type 0 where
  pub url : String
  pub request_type : String
  pub headers : Option (Dict String)
  pub cookies : Option ℕ
  pub auth : Option ℕ
  pub allow_redirects : Bool
  pub max_redirects : ℕ
  pub allowed_schemes : List String
  pub cross_origin_forward : List String
  pub timeout : Timeout

pub record Sent : Type 0 where
  pub verb : String
  pub target : String
  pub limits : Timeout
  pub headers : Option (Dict String)
  pub cookies : Option ℕ
  pub auth : Option ℕ
  pub body : Dict ℕ

pub record Response : Type 0 where
  pub status : ℕ
  pub location : Option String
  pub id : ℕ

-- What one hop meets: the clock, the tracers' own callbacks, the response, the clock of the trace,
-- and the body that is built for the next hop.
pub record Turn : Type 0 where
  pub now : ℕ
  pub traced : Collector → Collector
  pub reply : Sent → Attempt Response
  pub followed_at : ℕ
  pub built : Attempt (Dict ℕ)

-- The variables of the loop.
pub record Hop : Type 0 where
  pub hop : ℕ
  pub verb : String
  pub target : String
  pub headers : Option (Dict String)
  pub cookies : Option ℕ
  pub auth : Option ℕ
  pub body : Dict ℕ
  pub redirected_at : Option RedirectEvent
  pub collectors : List Collector

-- One pass of the loop ends the call, after a request or before it, or follows a redirect.
pub data Move {ℓ} (R : Type ℓ) : Type ℓ where
  ends : List Sent → Option RedirectEvent → List Collector → Attempt R → Move R
  follows : Sent → Hop → Move R

pub record Ended {ℓ} (R : Type ℓ) : Type ℓ where
  pub requests : List Sent
  pub collectors : List Collector
  pub outcome : Attempt R

abbrev is_redirect_status : ℕ → Bool
is_redirect_status s = eqb s 301 || eqb s 302 || eqb s 303 || eqb s 307 || eqb s 308

abbrev or_blank : Option String → String
or_blank none = ""
or_blank (some s) = s

module _ {ℓ} {R : Type ℓ} (t : Texts) (u : Urls) (offers : String → Bool)
    (read : String → Response → Attempt R) (call : Call) where
  -- The header that a response is followed by.
  abbrev pub location_of : Response → String
  location_of r =
      t.strip
        (if call.allow_redirects && is_redirect_status r.status then or_blank r.location else "")

  -- The request of a hop.
  unfoldable pub issue : Option ℕ → ℕ → Hop → Attempt Sent
  issue deadline now h = elim (resolve_verb t offers http_verbs h.verb) [
    | broke e ↦ broke e
    | done verb ↦ elim (hop_deadline call.timeout deadline now) [
      | broke e ↦ broke e
      | done limits ↦ done (record {
        verb = verb;
        target = h.target;
        limits = limits;
        headers = h.headers;
        cookies = h.cookies;
        auth = h.auth;
        body = h.body;
      })
    ]
  ]

  -- The loop's variables once a redirect to `following` is followed; the origins are compared last.
  unfoldable pub aimed :
      Response → String → Dict ℕ → RedirectEvent → List Collector → Hop → Option Bool → Attempt Hop
  aimed r following built event cs h none = broke value_error
  aimed r following built event cs h (some same) =
      let (verb, body) = after_redirect t r.status h.verb built in
      done (record {
        hop = suc h.hop;
        verb = verb;
        target = following;
        headers =
            if same then h.headers else cross_origin_headers t call.cross_origin_forward h.headers;
        cookies = if same then h.cookies else none;
        auth = if same then h.auth else none;
        body = body;
        redirected_at = some event;
        collectors = cs;
      })

  abbrev ends_or_follows : Sent → RedirectEvent → List Collector → Attempt Hop → Move R
  ends_or_follows sent event cs (broke e) = ends (sent ∷ []) (some event) cs (broke e)
  ends_or_follows sent event cs (done h) = follows sent h

  -- A hop to an allowed target: it is measured, its body is built, and it is aimed.
  unfoldable pub follow : Turn → Sent → Response → String → List Collector → Hop → Move R
  unfolding aimed
  follow turn sent r following cs h =
      let event = measure_redirect turn.followed_at cs in
      elim turn.built [
        | broke e ↦ ends (sent ∷ []) (some event) cs (broke e)
        | done built ↦
            ends_or_follows sent event cs
              (aimed r following built event cs h (same_origin u h.target following))
      ]

  -- What the loop does with a response.
  unfoldable pub judge : Turn → Sent → Response → List Collector → Hop → Move R
  unfolding follow
  judge turn sent r cs h =
      if location_of r == ""
      then ends (sent ∷ []) h.redirected_at cs (read h.target r)
      else if leb call.max_redirects h.hop
      then ends (sent ∷ []) h.redirected_at cs (broke (gateway transport_error (some r.status)))
      else elim (redirect_target t u call.allowed_schemes h.target (location_of r)) [
        | broke e ↦ ends (sent ∷ []) h.redirected_at cs (broke e)
        | done following ↦ follow turn sent r following cs h
      ]

  -- One pass of `while True`.
  unfoldable pub pass : Option ℕ → Turn → Hop → Move R
  unfolding issue judge
  pass deadline turn h = elim (issue deadline turn.now h) [
    | broke e ↦ ends [] h.redirected_at h.collectors (broke e)
    | done sent ↦ elim (turn.reply sent) [
      | broke e ↦ ends (sent ∷ []) h.redirected_at (trace_all turn.traced h.collectors) (broke e)
      | done r ↦ judge turn sent r (trace_all turn.traced h.collectors) h
    ]
  ]

  abbrev pub after_sent : Sent → Option (Ended R) → Option (Ended R)
  after_sent sent none = none
  after_sent sent (some e) = some (record e { requests = sent ∷ e.requests })

  -- The loop; `none` means that the fuel ran out.
  unfoldable pub chase : Option ℕ → (ℕ → Turn) → ℕ → Hop → Option (Ended R)
  chase deadline turns zero h = none
  chase deadline turns (suc fuel) h = elim (pass deadline (turns h.hop) h) [
    | ends requests event cs outcome ↦
        some
          (record { requests = requests; collectors = record_redirect event cs; outcome = outcome })
    | follows sent h' ↦ after_sent sent (chase deadline turns fuel h')
  ]

  abbrev pub first_hop : Dict ℕ → List Collector → Hop
  first_hop body cs = record {
    hop = 0;
    verb = call.request_type;
    target = call.url;
    headers = call.headers;
    cookies = call.cookies;
    auth = call.auth;
    body = body;
    redirected_at = none;
    collectors = cs;
  }

  abbrev pub deadline_at : ℕ → Option ℕ → Option ℕ
  deadline_at started none = none
  deadline_at started (some total) = some (started + total)

  -- `make_http_request`, once the TLS options and the first body are built.
  unfoldable pub make_http_request : ℕ → (ℕ → Turn) → Dict ℕ → List Collector → ℕ → Option (Ended R)
  unfolding chase
  make_http_request started turns body cs fuel =
      chase (deadline_at started call.timeout.total) turns fuel (first_hop body cs)
