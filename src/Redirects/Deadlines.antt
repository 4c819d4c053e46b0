-- ===== src/Redirects/Deadlines.antt =====
-- The one deadline of a chain of redirects (`make_http_request` of
-- asyncio_gateway/helpers/internal/request_helper.py).
use async_gateway.Prelude.{ℕ, ◌+◌, ◌-◌, ◌≤◌, ◌≡◌, String, Bool, some, List, arith, Dict, subst}
use async_gateway.Redirects.{Attempt, done, hop_deadline}
use async_gateway.Values.Texts.{Texts, Urls}
use async_gateway.Redirects.Collectors.{Collector}
use async_gateway.Redirects.Chain.{
  Call, Sent, Response, Turn, Hop, Ended, issue, chase, first_hop, deadline_at, make_http_request,
}
use async_gateway.Redirects.Requests.{AllFrom, chase-AllFrom}

module _ {ℓ} {R : Type ℓ} (t : Texts) (u : Urls) (offers : String → Bool)
    (read : String → Response → Attempt R) (call : Call) where
  -- The limit of the request of hop `k` is the time that is left of the call's: from the clock of that
  -- hop to the deadline.
  abbrev pub InTime : ℕ → (ℕ → Turn) → ℕ → Sent → Type 0
  InTime deadline turns k s =
      (left : ℕ) × (s.limits.total ≡ some left) × (1 ≤ left) × ((turns k).now + left ≡ deadline)

  issue-InTime :
      (deadline : ℕ) (turns : ℕ → Turn) (h : Hop) (s : Sent)
      → issue t u offers read call (some deadline) (turns h.hop).now h ≡ done s
      → InTime deadline turns h.hop s
  unfolding issue hop_deadline
  issue-InTime deadline turns h s e =
      (deadline - (turns h.hop).now, ground arith, ground arith, ground arith)

  -- Where the call has a time limit, the own limit of its `k`-th request is at least 1, and is what is
  -- left, by the clock that was read for that request, until the one deadline of the whole chain.
  pub make_http_request-InTime :
      (started total : ℕ) (turns : ℕ → Turn) (body : Dict ℕ) (cs : List Collector) (fuel : ℕ)
      (e : Ended R)
      → call.timeout.total ≡ some total
      → make_http_request t u offers read call started turns body cs fuel ≡ some e
      → AllFrom (InTime (started + total) turns) 0 e.requests
  unfolding make_http_request
  make_http_request-InTime started total turns body cs fuel e limited runs =
      chase-AllFrom t u offers read call (some (started + total)) turns (λ h. Unit)
        (InTime (started + total) turns) (λ h s i. issue-InTime (started + total) turns h s)
        (λ h h' s i q. tt) fuel (first_hop t u offers read call body cs) e tt
        (subst
          (λ o.
            chase t u offers read call (deadline_at t u offers read call started o) turns fuel
              (first_hop t u offers read call body cs)
            ≡ some e)
          limited runs)
