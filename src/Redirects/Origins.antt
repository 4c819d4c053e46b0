-- ===== src/Redirects/Origins.antt =====
-- What a followed hop may carry, and where it may go (`make_http_request` of
-- asyncio_gateway/helpers/internal/request_helper.py).
use async_gateway.Prelude.{
  ℕ, ◌≡◌, refl, ap, ◌∙◌, sym, ◌⊎◌, inl, inr, String, Bool, true, Option, none, some, List, [], ◌∷◌,
  arith, Dict, All, eq_iff, Bool-cases,
}
use async_gateway.Redirects.{
  Attempt, done, origin, same_origin, may_cross, cross_origin_headers, compared, same_host,
  same_port, crossing,
}
use async_gateway.Values.Texts.{Texts, Urls}
use async_gateway.Redirects.Collectors.{Collector}
use async_gateway.Redirects.Chain.{
  Call, Sent, Response, Turn, Hop, follows, Ended, issue, judge, follow, aimed, pass, first_hop,
  deadline_at, make_http_request,
}
use async_gateway.Redirects.Requests.{chase-All, pass-judge}
use async_gateway.Redirects.Requests.{issue-fields}

same_host-eq : (a b : Option String) → same_host a b ≡ true → a ≡ b
same_host-eq none none h = refl
same_host-eq none (some b) h = cc
same_host-eq (some a) none h = cc
same_host-eq (some a) (some b) h = ap some ((eq_iff a b).0 h)

same_port-eq : (a b : Option ℕ) → same_port a b ≡ true → a ≡ b
same_port-eq a b h = ground arith

compared-true :
    (p q : Option (String × Option String × Option ℕ)) → compared p q ≡ some true → p ≡ q
compared-true none q h = cc
compared-true (some p) none h = cc
compared-true (some (s, h, p)) (some (s', h', p')) e =
    ground (arith, eq_iff s s', same_host-eq h h', same_port-eq p p')

same_origin-true :
    (u : Urls) (a b : String) → same_origin u a b ≡ some true → origin u a ≡ origin u b
unfolding same_origin
same_origin-true u a b h = compared-true (origin u a) (origin u b) h

-- Every header may cross an origin.
abbrev pub AllCross : Texts → List String → Option (Dict String) → Type 0
AllCross t also none = Unit
AllCross t also (some headers) = All (λ h. may_cross t also h.0 ≡ true) headers

crossing-AllCross :
    (t : Texts) (also : List String) (headers : Dict String)
    → All (λ h. may_cross t also h.0 ≡ true) (crossing t also headers)
crossing-AllCross t also [] = tt
crossing-AllCross t also ((name, value) ∷ headers) = elim (Bool-cases (may_cross t also name)) [
  | inl may ↦ rw may (may, crossing-AllCross t also headers)
  | inr not_ ↦ rw not_ (crossing-AllCross t also headers)
]

cross_origin_headers-AllCross :
    (t : Texts) (also : List String) (headers : Option (Dict String))
    → AllCross t also (cross_origin_headers t also headers)
unfolding cross_origin_headers
cross_origin_headers-AllCross t also none = tt
cross_origin_headers-AllCross t also (some headers) = crossing-AllCross t also headers

module _ {ℓ} {R : Type ℓ} (t : Texts) (u : Urls) (offers : String → Bool)
    (read : String → Response → Attempt R) (call : Call) where
  -- Nothing secret: no cookies, no auth, and only headers that may cross an origin.
  abbrev pub Bare : Option (Dict String) → Option ℕ → Option ℕ → Type 0
  Bare headers cookies auth =
      AllCross t call.cross_origin_forward headers × (cookies ≡ none) × (auth ≡ none)

  abbrev pub GoesHome : String → Type 0
  GoesHome target = origin u target ≡ origin u call.url

  abbrev pub IsDiscreet : Sent → Type 0
  IsDiscreet s = GoesHome s.target ⊎ Bare s.headers s.cookies s.auth

  abbrev Discreet : Hop → Type 0
  Discreet h = GoesHome h.target ⊎ Bare h.headers h.cookies h.auth

  issue-IsDiscreet :
      (deadline : Option ℕ) (n : ℕ) (h : Hop) (s : Sent)
      → Discreet h
      → issue t u offers read call deadline n h ≡ done s
      → IsDiscreet s
  issue-IsDiscreet deadline n h s d e =
      let (target, headers, cookies, auth) = issue-fields t u offers read call deadline n h s e in
      elim d [
        | inl home ↦ inl (ap (origin u) target ∙ home)
        | inr bare ↦ inr (rw (headers, cookies, auth) bare)
      ]

  -- What a followed redirect does to the secrets.
  judge-secrets :
      (n : Turn) (s s' : Sent) (r : Response) (cs : List Collector) (h h' : Hop)
      → judge t u offers read call n s r cs h ≡ follows s' h'
      → ((same_origin u h.target h'.target ≡ some true)
          × (h'.headers ≡ h.headers)
          × (h'.cookies ≡ h.cookies)
          × (h'.auth ≡ h.auth))
        ⊎ ((h'.headers ≡ cross_origin_headers t call.cross_origin_forward h.headers)
            × (h'.cookies ≡ none)
            × (h'.auth ≡ none))
  unfolding judge follow aimed
  judge-secrets n s s' r cs h h' e = ground arith

  pass-Discreet :
      (deadline : Option ℕ) (n : Turn) (h h' : Hop) (s : Sent)
      → Discreet h
      → pass t u offers read call deadline n h ≡ follows s h'
      → Discreet h'
  pass-Discreet deadline n h h' s d e =
      let (r, cs, judged) = pass-judge t u offers read call deadline n h h' s e in
      elim (judge-secrets n s s r cs h h' judged) [
        | inl (same, headers, cookies, auth) ↦ elim d [
          | inl home ↦ inl (sym (same_origin-true u h.target h'.target same) ∙ home)
          | inr bare ↦ inr (rw (headers, cookies, auth) bare)
        ]
        | inr (headers, cookies, auth) ↦ inr (
          rw headers (cross_origin_headers-AllCross t call.cross_origin_forward h.headers),
          cookies,
          auth,
        )
      ]

  -- A request of a call that does not go to the origin of the call's URL carries no cookies, no
  -- auth, and only headers that are on the allowlist or that the caller declared.
  pub make_http_request-IsDiscreet :
      (started : ℕ) (turns : ℕ → Turn) (body : Dict ℕ) (cs : List Collector) (fuel : ℕ)
      (e : Ended R)
      → make_http_request t u offers read call started turns body cs fuel ≡ some e
      → All IsDiscreet e.requests
  unfolding make_http_request
  make_http_request-IsDiscreet started turns body cs fuel e runs =
      let deadline = deadline_at t u offers read call started call.timeout.total in
      chase-All t u offers read call deadline turns Discreet IsDiscreet
        (λ h s. issue-IsDiscreet deadline (turns h.hop).now h s)
        (λ h h' s. pass-Discreet deadline (turns h.hop) h h' s) fuel
        (first_hop t u offers read call body cs) e (inl refl) runs
