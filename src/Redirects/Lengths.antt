-- ===== src/Redirects/Lengths.antt =====
-- How long a chain of redirects is (`make_http_request` of
-- asyncio_gateway/helpers/internal/request_helper.py).
use async_gateway.Prelude.{
  ℕ, zero, suc, ◌+◌, ◌≤◌, ◌<◌, ◌≡◌, refl, ap, ◌∙◌, String, Bool, Option, some, List, ◌∷◌, arith,
  length, Dict,
}
use async_gateway.Redirects.{Attempt}
use async_gateway.Values.Texts.{Texts, Urls}
use async_gateway.Redirects.Collectors.{Collector, RedirectEvent, record_redirect}
use async_gateway.Redirects.Chain.{
  Call, Sent, Response, Turn, Hop, Move, ends, follows, Ended, judge, follow, aimed, pass,
  after_sent, chase, first_hop, deadline_at, make_http_request,
}

module _ {ℓ} {R : Type ℓ} where
  -- What a pass does, with its equation.
  pub data Passed (m : Move R) : Type ℓ where
    ended :
        (requests : List Sent) (event : Option RedirectEvent) (cs : List Collector) (o : Attempt R)
        → m ≡ ends requests event cs o
        → Passed m
    followed : (sent : Sent) (h : Hop) → m ≡ follows sent h → Passed m

  pub Move-cases : (m : Move R) → Passed m
  Move-cases (ends requests event cs o) = ended requests event cs o refl
  Move-cases (follows sent h) = followed sent h refl

module _ {ℓ} {R : Type ℓ} (t : Texts) (u : Urls) (offers : String → Bool)
    (read : String → Response → Attempt R) (call : Call) where
  pass-follows :
      (deadline : Option ℕ) (turn : Turn) (h h' : Hop) (sent : Sent)
      → pass t u offers read call deadline turn h ≡ follows sent h'
      → (h'.hop ≡ suc h.hop) × (h.hop < call.max_redirects)
  unfolding pass judge follow aimed
  pass-follows deadline turn h h' sent e = ground arith

  pub pass-ends :
      (deadline : Option ℕ) (turn : Turn) (h : Hop) (requests : List Sent)
      (event : Option RedirectEvent) (cs : List Collector) (o : Attempt R)
      → pass t u offers read call deadline turn h ≡ ends requests event cs o
      → length requests ≤ 1
  unfolding pass judge follow aimed
  pass-ends deadline turn h requests event cs o e = ground arith

  pub chase-ends :
      (deadline : Option ℕ) (turns : ℕ → Turn) (fuel : ℕ) (h : Hop) (requests : List Sent)
      (event : Option RedirectEvent) (cs : List Collector) (o : Attempt R)
      → pass t u offers read call deadline (turns h.hop) h ≡ ends requests event cs o
      → chase t u offers read call deadline turns (suc fuel) h
        ≡ some (record { requests = requests; collectors = record_redirect event cs; outcome = o })
  unfolding chase
  chase-ends deadline turns fuel h requests event cs o e = rw (e, chase) refl

  pub chase-follows :
      (deadline : Option ℕ) (turns : ℕ → Turn) (fuel : ℕ) (h h' : Hop) (sent : Sent)
      → pass t u offers read call deadline (turns h.hop) h ≡ follows sent h'
      → chase t u offers read call deadline turns (suc fuel) h
        ≡ after_sent t u offers read call sent (chase t u offers read call deadline turns fuel h')
  unfolding chase
  chase-follows deadline turns fuel h h' sent e = rw (e, chase) refl

  chase_total :
      (deadline : Option ℕ) (turns : ℕ → Turn) (fuel : ℕ) (h : Hop)
      → h.hop ≤ call.max_redirects
      → call.max_redirects < fuel + h.hop
      → (e : Ended R) × (chase t u offers read call deadline turns fuel h ≡ some e)
        × (length e.requests + h.hop ≤ suc call.max_redirects)
  chase_total deadline turns zero h le enough = ground arith
  chase_total deadline turns (suc fuel) h le enough =
      elim (Move-cases (pass t u offers read call deadline (turns h.hop) h)) [
        | ended requests event cs o e ↦ (
          record { requests = requests; collectors = record_redirect event cs; outcome = o },
          chase-ends deadline turns fuel h requests event cs o e,
          omega (arith, pass-ends deadline (turns h.hop) h requests event cs o e, le),
        )
        | followed sent h' e ↦
            let moved = pass-follows deadline (turns h.hop) h h' sent e in
            let rest =
              chase_total deadline turns fuel h' (omega (arith, moved.0, moved.1))
                (omega (arith, moved.0, enough)) in
            (
              record rest.0 { requests = sent ∷ rest.0.requests },
              chase-follows deadline turns fuel h h' sent e
                  ∙ ap (after_sent t u offers read call sent) rest.1,
              omega (arith, rest.2, moved.0),
            )
      ]

  -- A call whose fuel is more than `max_redirects` ends, and it has made at most
  -- `max_redirects + 1` requests, whatever the responses are.
  pub make_http_request_total :
      (started : ℕ) (turns : ℕ → Turn) (body : Dict ℕ) (cs : List Collector) (fuel : ℕ)
      → call.max_redirects < fuel
      → (e : Ended R) × (make_http_request t u offers read call started turns body cs fuel ≡ some e)
        × (length e.requests ≤ suc call.max_redirects)
  unfolding make_http_request
  make_http_request_total started turns body cs fuel enough =
      let h = first_hop t u offers read call body cs in
      let (e, runs, bound) =
        chase_total (deadline_at t u offers read call started call.timeout.total) turns fuel h
          (omega arith) (omega (arith, enough)) in
      (e, runs, omega (arith, bound))
