-- ===== src/Redirects/Traces.antt =====
-- The trace of a followed redirect (`measure_redirect` and `record_redirect` in `make_http_request` of
-- asyncio_gateway/helpers/internal/request_helper.py).
use async_gateway.Prelude.{
  ℕ, zero, suc, ◌≤◌, ◌≡◌, sym, ◌∙◌, ap, refl, subst, String, Bool, true, Option, none, some, List,
  [], ◌∷◌, arith, Dict, All, length,
}
use async_gateway.Redirects.{Attempt}
use async_gateway.Values.Texts.{Texts, Urls}
use async_gateway.Redirects.Collectors.{
  Collector, RedirectEvent, measure_redirect, mark_all, record_redirect, trace_all,
}
use async_gateway.Redirects.Chain.{
  Call, Sent, Response, Turn, Hop, ends, follows, Ended, judge, follow, aimed, pass, after_sent,
  chase, make_http_request, deadline_at, first_hop,
}
use async_gateway.Redirects.Lengths.{
  ended, followed, Move-cases, chase-ends, chase-follows, pass-ends,
}
use async_gateway.Redirects.Requests.{some_injective}

length-measure_redirect :
    (now : ℕ) (cs : List Collector) → length (measure_redirect now cs) ≡ length cs
unfolding measure_redirect
length-measure_redirect now [] = refl
length-measure_redirect now (c ∷ cs) = ap suc (length-measure_redirect now cs)

length-trace_all :
    (f : Collector → Collector) (cs : List Collector) → length (trace_all f cs) ≡ length cs
length-trace_all f [] = refl
length-trace_all f (c ∷ cs) = ap suc (length-trace_all f cs)

abbrev pub IsRedirected : Collector → Type 0
IsRedirected c = c.is_redirect ≡ true

mark_all-IsRedirected :
    (event : RedirectEvent) (cs : List Collector)
    → length event ≡ length cs
    → All IsRedirected (mark_all event cs)
mark_all-IsRedirected [] [] h = tt
mark_all-IsRedirected [] (c ∷ cs) h = ground arith
mark_all-IsRedirected (t ∷ ts) [] h = tt
mark_all-IsRedirected (none ∷ ts) (c ∷ cs) h =
    (refl, mark_all-IsRedirected ts cs (omega (arith, h)))
mark_all-IsRedirected (some t ∷ ts) (c ∷ cs) h =
    (refl, mark_all-IsRedirected ts cs (omega (arith, h)))

-- The measured redirect has a time for each collector.
abbrev Measured : Option RedirectEvent → List Collector → Type 0
Measured none cs = ⊥
Measured (some event) cs = length event ≡ length cs

record_redirect-IsRedirected :
    (event : Option RedirectEvent) (cs : List Collector)
    → Measured event cs
    → All IsRedirected (record_redirect event cs)
unfolding record_redirect
record_redirect-IsRedirected none cs h = elim h [ ]
record_redirect-IsRedirected (some event) cs h = mark_all-IsRedirected event cs h

too_short : (n : ℕ) → n ≤ 1 → 2 ≤ n → ⊥
too_short n le two = omega arith

module _ {ℓ} {R : Type ℓ} (t : Texts) (u : Urls) (offers : String → Bool)
    (read : String → Response → Attempt R) (call : Call) where
  pass-follows_Measured :
      (deadline : Option ℕ) (turn : Turn) (h h' : Hop) (s : Sent)
      → pass t u offers read call deadline turn h ≡ follows s h'
      → Measured h'.redirected_at h'.collectors
  unfolding pass judge follow aimed
  pass-follows_Measured deadline turn h h' s e =
      ground (arith, length-measure_redirect turn.followed_at (trace_all turn.traced h.collectors))

  pass-ends_Measured :
      (deadline : Option ℕ) (turn : Turn) (h : Hop) (requests : List Sent)
      (event : Option RedirectEvent) (cs : List Collector) (o : Attempt R)
      → Measured h.redirected_at h.collectors
      → pass t u offers read call deadline turn h ≡ ends requests event cs o
      → Measured event cs
  unfolding pass judge follow aimed
  pass-ends_Measured deadline turn h requests event cs o m e = ground (
    arith,
    length-measure_redirect turn.followed_at (trace_all turn.traced h.collectors),
    length-trace_all turn.traced h.collectors,
  )

  after_sent-IsRedirected :
      (s : Sent) (r : Option (Ended R)) (e : Ended R)
      → ((e' : Ended R) → r ≡ some e' → All IsRedirected e'.collectors)
      → after_sent t u offers read call s r ≡ some e
      → All IsRedirected e.collectors
  after_sent-IsRedirected s none e all runs = cc
  after_sent-IsRedirected s (some e') e all runs =
      subst (λ x. All IsRedirected x.collectors) (some_injective runs) (all e' refl)

  chase-IsRedirected :
      (deadline : Option ℕ) (turns : ℕ → Turn) (fuel : ℕ) (h : Hop) (e : Ended R)
      → Measured h.redirected_at h.collectors
      → chase t u offers read call deadline turns fuel h ≡ some e
      → All IsRedirected e.collectors
  unfolding chase
  chase-IsRedirected deadline turns zero h e m runs = cc
  chase-IsRedirected deadline turns (suc fuel) h e m runs =
      elim (Move-cases (pass t u offers read call deadline (turns h.hop) h)) [
        | ended requests event cs o q ↦
            subst (λ x. All IsRedirected x.collectors)
              (some_injective (
                sym (chase-ends t u offers read call deadline turns fuel h requests event cs o q)
                ∙ runs))
              (record_redirect-IsRedirected event cs
                (pass-ends_Measured deadline (turns h.hop) h requests event cs o m q))
        | followed s h' q ↦
            after_sent-IsRedirected s (chase t u offers read call deadline turns fuel h') e
              (λ e'.
                chase-IsRedirected deadline turns fuel h' e'
                  (pass-follows_Measured deadline (turns h.hop) h h' s q))
              (sym (chase-follows t u offers read call deadline turns fuel h h' s q) ∙ runs)
      ]

  -- A call that made a second request has marked every tracer as redirected, however the call ended
  -- and whatever the tracers' own callbacks wrote at the later requests.
  make_http_request-IsRedirected :
      (started : ℕ) (turns : ℕ → Turn) (body : Dict ℕ) (cs : List Collector) (fuel : ℕ)
      (e : Ended R)
      → make_http_request t u offers read call started turns body cs fuel ≡ some e
      → 2 ≤ length e.requests
      → All IsRedirected e.collectors
  unfolding make_http_request chase
  make_http_request-IsRedirected started turns body cs zero e runs two = cc
  make_http_request-IsRedirected started turns body cs (suc fuel) e runs two =
      let h = first_hop t u offers read call body cs in
      let deadline = deadline_at t u offers read call started call.timeout.total in
      elim (Move-cases (pass t u offers read call deadline (turns 0) h)) [
        | ended requests event cs' o q ↦
            elim (too_short (length e.requests)
              (subst (λ x. length x.requests ≤ 1)
                (some_injective (
                  sym (chase-ends t u offers read call deadline turns fuel h requests event cs' o q)
                  ∙ runs))
                (pass-ends t u offers read call deadline (turns 0) h requests event cs' o q))
              two) [ ]
        | followed s h' q ↦
            after_sent-IsRedirected s (chase t u offers read call deadline turns fuel h') e
              (λ e'.
                chase-IsRedirected deadline turns fuel h' e'
                  (pass-follows_Measured deadline (turns 0) h h' s q))
              (sym (chase-follows t u offers read call deadline turns fuel h h' s q) ∙ runs)
      ]
