-- ===== src/Redirects/Targets.antt =====
-- Where a redirect may go (`make_http_request` of
-- asyncio_gateway/helpers/internal/request_helper.py).
use async_gateway.Prelude.{
  ℕ, ◌≡◌, refl, sym, ◌⊎◌, inl, inr, String, Bool, true, false, Option, none, some, List, arith,
  Dict, All, contains, subst,
}
use async_gateway.Redirects.{Attempt, done, redirect_target, admitted, resolved, parsed}
use async_gateway.Values.Texts.{Texts, Urls, Parts}
use async_gateway.Redirects.Collectors.{Collector}
use async_gateway.Redirects.Chain.{
  Call, Sent, Response, Turn, Hop, follows, Ended, judge, follow, aimed, first_hop, deadline_at,
  make_http_request, location_of,
}
use async_gateway.Redirects.Requests.{chase-All, pass-judge}
use async_gateway.Redirects.Requests.{issue-fields}

-- The target's authority can be read and its scheme is an allowed one.
abbrev admits : Texts → List String → Option Parts → Bool
admits t allowed none = false
admits t allowed (some parts) = contains allowed (t.lower parts.scheme)

unfoldable pub may_follow : Texts → Urls → List String → String → Bool
may_follow t u allowed target = admits t allowed (parsed (u.split target))

redirect_target-may_follow :
    (t : Texts) (u : Urls) (allowed : List String) (current location target : String)
    → redirect_target t u allowed current location ≡ done target
    → may_follow t u allowed target ≡ true
unfolding redirect_target may_follow
redirect_target-may_follow t u allowed current location target h = go (u.join current location) h
  where
    at :
        (joined : String) (p : Option Parts)
        → admitted t allowed joined p ≡ done target
        → (joined ≡ target) × (admits t allowed p ≡ true)
    at joined none h = cc
    at joined (some p) h = ground arith

    go :
        (joined : Option String)
        → resolved t u allowed joined ≡ done target
        → may_follow t u allowed target ≡ true
    go none h = cc
    go (some joined) h =
        let (e, may) = at joined (parsed (u.split joined)) h in
        subst (λ x. may_follow t u allowed x ≡ true) e may

module _ {ℓ} {R : Type ℓ} (t : Texts) (u : Urls) (offers : String → Bool)
    (read : String → Response → Attempt R) (call : Call) where
  judge-may_follow :
      (n : Turn) (s s' : Sent) (r : Response) (cs : List Collector) (h h' : Hop)
      → judge t u offers read call n s r cs h ≡ follows s' h'
      → may_follow t u call.allowed_schemes h'.target ≡ true
  unfolding judge follow aimed
  judge-may_follow n s s' r cs h h' e =
      redirect_target-may_follow t u call.allowed_schemes h.target
        (location_of t u offers read call r) h'.target (ground arith)

  -- The call's own URL, or a target that a redirect may be followed to.
  abbrev pub IsAdmitted : String → Type 0
  IsAdmitted target = (target ≡ call.url) ⊎ (may_follow t u call.allowed_schemes target ≡ true)

  -- Every request of a call goes to the call's own URL or to one whose scheme is among the allowed
  -- schemes.
  pub make_http_request-IsAdmitted :
      (started : ℕ) (turns : ℕ → Turn) (body : Dict ℕ) (cs : List Collector) (fuel : ℕ)
      (e : Ended R)
      → make_http_request t u offers read call started turns body cs fuel ≡ some e
      → All (λ s. IsAdmitted s.target) e.requests
  unfolding make_http_request
  make_http_request-IsAdmitted started turns body cs fuel e runs =
      let deadline = deadline_at t u offers read call started call.timeout.total in
      chase-All t u offers read call deadline turns (λ h. IsAdmitted h.target)
        (λ s. IsAdmitted s.target)
        (λ h s i issued.
          subst IsAdmitted
            (sym (issue-fields t u offers read call deadline (turns h.hop).now h s issued).0) i)
        (λ h h' s i q.
          let (r, cs, judged) = pass-judge t u offers read call deadline (turns h.hop) h h' s q in
          inr (judge-may_follow (turns h.hop) s s r cs h h' judged))
        fuel (first_hop t u offers read call body cs) e (inl refl) runs
