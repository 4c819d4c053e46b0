-- ===== src/Redirects/Requests.antt =====
-- Invariants of the redirect loop: what every request of a call has (`make_http_request` of
-- asyncio_gateway/helpers/internal/request_helper.py).
use async_gateway.Prelude.{
  ℕ, zero, suc, ◌≡◌, sym, ◌∙◌, refl, subst, String, Bool, Option, none, some, List, [], ◌∷◌, arith,
  All,
}
use async_gateway.Redirects.{Attempt, done, broke, Broken}
use async_gateway.Values.Texts.{Texts, Urls}
use async_gateway.Redirects.Collectors.{Collector, RedirectEvent, trace_all}
use async_gateway.Redirects.Chain.{
  Call, Sent, Response, Turn, Hop, ends, follows, Ended, issue, judge, follow, aimed, pass,
  after_sent, chase,
}
use async_gateway.Redirects.Lengths.{ended, followed, Move-cases, chase-ends, chase-follows}

pub some_injective {ℓ} : {A : Type ℓ} {a b : A} → some a ≡ some b → a ≡ b
some_injective h = cc

-- The property of each request with the number of its hop.
abbrev pub AllFrom : (ℕ → Sent → Type 0) → ℕ → List Sent → Type 0
AllFrom P n [] = Unit
AllFrom P n (s ∷ ss) = P n s × AllFrom P (suc n) ss

AllFrom-All : (P : Sent → Type 0) (n : ℕ) (ss : List Sent) → AllFrom (λ k s. P s) n ss → All P ss
AllFrom-All P n [] h = tt
AllFrom-All P n (s ∷ ss) (h, hs) = (h, AllFrom-All P (suc n) ss hs)

module _ {ℓ} {R : Type ℓ} (t : Texts) (u : Urls) (offers : String → Bool)
    (read : String → Response → Attempt R) (call : Call) where
  pass-ends_done :
      (deadline : Option ℕ) (turn : Turn) (h : Hop) (s : Sent) (requests : List Sent)
      (event : Option RedirectEvent) (cs : List Collector) (o : Attempt R)
      → issue t u offers read call deadline turn.now h ≡ done s
      → pass t u offers read call deadline turn h ≡ ends requests event cs o
      → requests ≡ s ∷ []
  unfolding pass judge follow aimed
  pass-ends_done deadline turn h s requests event cs o issued e = ground arith

  pass-ends_broke :
      (deadline : Option ℕ) (turn : Turn) (h : Hop) (b : Broken) (requests : List Sent)
      (event : Option RedirectEvent) (cs : List Collector) (o : Attempt R)
      → issue t u offers read call deadline turn.now h ≡ broke b
      → pass t u offers read call deadline turn h ≡ ends requests event cs o
      → requests ≡ []
  unfolding pass judge follow aimed
  pass-ends_broke deadline turn h b requests event cs o issued e = ground arith

  pub pass-follows_issue :
      (deadline : Option ℕ) (turn : Turn) (h h' : Hop) (sent : Sent)
      → pass t u offers read call deadline turn h ≡ follows sent h'
      → issue t u offers read call deadline turn.now h ≡ done sent
  unfolding pass judge follow aimed
  pass-follows_issue deadline turn h h' sent e = ground arith

  -- A request carries what its hop holds.
  pub issue-fields :
      (deadline : Option ℕ) (n : ℕ) (h : Hop) (s : Sent)
      → issue t u offers read call deadline n h ≡ done s
      → (s.target ≡ h.target)
        × (s.headers ≡ h.headers)
        × (s.cookies ≡ h.cookies)
        × (s.auth ≡ h.auth)
  unfolding issue
  issue-fields deadline n h s e = ground arith

  pass-hop :
      (deadline : Option ℕ) (turn : Turn) (h h' : Hop) (sent : Sent)
      → pass t u offers read call deadline turn h ≡ follows sent h'
      → h'.hop ≡ suc h.hop
  unfolding pass judge follow aimed
  pass-hop deadline turn h h' sent e = ground arith

  -- A redirect is followed on a response that was judged so.
  pub pass-judge :
      (deadline : Option ℕ) (turn : Turn) (h h' : Hop) (s : Sent)
      → pass t u offers read call deadline turn h ≡ follows s h'
      → (r : Response) × (cs : List Collector) × (judge t u offers read call turn s r cs h
          ≡ follows s h')
  unfolding pass
  pass-judge deadline turn h h' s e =
      replied (turn.reply s) refl (pass-follows_issue deadline turn h h' s e)
    where
      replied :
          (a : Attempt Response)
          → turn.reply s ≡ a
          → issue t u offers read call deadline turn.now h ≡ done s
          → (r : Response) × (cs : List Collector) × (judge t u offers read call turn s r cs h
              ≡ follows s h')
      replied (done r) q issued = (r, trace_all turn.traced h.collectors, ground arith)
      replied (broke b) q issued = ground arith

  module _ (deadline : Option ℕ) (turns : ℕ → Turn) (I : Hop → Type 0) (P : ℕ → Sent → Type 0)
      (issued : (h : Hop) (s : Sent)
        → I h
        → issue t u offers read call deadline (turns h.hop).now h ≡ done s
        → P h.hop s)
      (kept : (h h' : Hop) (s : Sent)
        → I h
        → pass t u offers read call deadline (turns h.hop) h ≡ follows s h'
        → I h') where
    last_issued :
        (h : Hop) (requests : List Sent) (event : Option RedirectEvent) (cs : List Collector)
        (o : Attempt R) (a : Attempt Sent)
        → I h
        → issue t u offers read call deadline (turns h.hop).now h ≡ a
        → pass t u offers read call deadline (turns h.hop) h ≡ ends requests event cs o
        → AllFrom P h.hop requests
    last_issued h requests event cs o (done s) i a e =
        subst (AllFrom P h.hop)
          (sym (pass-ends_done deadline (turns h.hop) h s requests event cs o a e))
          (issued h s i a, tt)
    last_issued h requests event cs o (broke b) i a e =
        subst (AllFrom P h.hop)
          (sym (pass-ends_broke deadline (turns h.hop) h b requests event cs o a e)) tt

    -- A property that each hop's request has is that of every request, where the hops have it by an
    -- invariant that each followed redirect keeps.
    pub chase-AllFrom :
        (fuel : ℕ) (h : Hop) (e : Ended R)
        → I h
        → chase t u offers read call deadline turns fuel h ≡ some e
        → AllFrom P h.hop e.requests
    unfolding chase
    chase-AllFrom zero h e i runs = cc
    chase-AllFrom (suc fuel) h e i runs =
        elim (Move-cases (pass t u offers read call deadline (turns h.hop) h)) [
          | ended requests event cs o q ↦
              subst (λ x. AllFrom P h.hop x.requests)
                (some_injective (
                  sym (chase-ends t u offers read call deadline turns fuel h requests event cs o q)
                  ∙ runs))
                (last_issued h requests event cs o
                  (issue t u offers read call deadline (turns h.hop).now h) i refl q)
          | followed s h' q ↦
              rest h s h' (chase t u offers read call deadline turns fuel h') i q
                (λ e' runs'.
                  subst (λ n. AllFrom P n e'.requests) (pass-hop deadline (turns h.hop) h h' s q)
                    (chase-AllFrom fuel h' e' (kept h h' s i q) runs'))
                (sym (chase-follows t u offers read call deadline turns fuel h h' s q) ∙ runs)
        ]
      where
        rest :
            (h : Hop) (s : Sent) (h' : Hop) (r : Option (Ended R))
            → I h
            → pass t u offers read call deadline (turns h.hop) h ≡ follows s h'
            → ((e' : Ended R) → r ≡ some e' → AllFrom P (suc h.hop) e'.requests)
            → after_sent t u offers read call s r ≡ some e
            → AllFrom P h.hop e.requests
        rest h s h' none i q all runs = cc
        rest h s h' (some e') i q all runs =
            subst (λ x. AllFrom P h.hop x.requests) (some_injective runs)
              (issued h s i (pass-follows_issue deadline (turns h.hop) h h' s q), all e' refl)

  -- The same of a property that does not look at the number.
  pub chase-All :
      (deadline : Option ℕ) (turns : ℕ → Turn) (I : Hop → Type 0) (P : Sent → Type 0)
      → ((h : Hop) (s : Sent)
          → I h
          → issue t u offers read call deadline (turns h.hop).now h ≡ done s
          → P s)
      → ((h h' : Hop) (s : Sent)
          → I h
          → pass t u offers read call deadline (turns h.hop) h ≡ follows s h'
          → I h')
      → (fuel : ℕ) (h : Hop) (e : Ended R) → I h
      → chase t u offers read call deadline turns fuel h ≡ some e
      → All P e.requests
  chase-All deadline turns I P issued kept fuel h e i runs =
      AllFrom-All P h.hop e.requests
        (chase-AllFrom deadline turns I (λ k s. P s) issued kept fuel h e i runs)
