-- ===== src/Http/Client/Secrets.antt =====
-- A constructed client and the redirect loop together: no credential leaves the origin of the call
-- (asyncio_gateway/logic/http_client.py, with `make_http_request` of
-- asyncio_gateway/helpers/internal/request_helper.py).
use async_gateway.Prelude.{
  ℕ, ◌≡◌, refl, sym, ◌⊎◌, inl, inr, subst, String, Bool, true, false, not, ◌||◌, Option, none, some,
  List, [], ◌∷◌, ◌==◌, arith, Dict, All, any, contains, eq_iff, Bool-cases,
}
use async_gateway.Values.{ok}
use async_gateway.Values.Texts.{Texts}
use async_gateway.Redirects.{Attempt, may_cross, cross_origin_safe_headers}
use async_gateway.Redirects.Chain.{Call, Sent, Response, Turn, Ended, make_http_request}
use async_gateway.Redirects.Collectors.{Collector}
use async_gateway.Redirects.Origins.{AllCross, GoesHome, IsDiscreet, make_http_request-IsDiscreet}
use async_gateway.Http.{Language, Tracer, Session, Given}
use async_gateway.Http.Headers.{credential_headers}
use async_gateway.Http.Headers.Clean.{AreHarmless}
use async_gateway.Http.Sessions.{carries}
use async_gateway.Http.Client.{HttpRequest, new_http_request}
use async_gateway.Http.Client.Guarded.{IsBare, new_http_request-IsGuarded}

or-false : (a b : Bool) → (a || b) ≡ false → (a ≡ false) × (b ≡ false)
or-false a b h = ground arith

not-false : (b : Bool) → not b ≡ false → b ≡ true
not-false b h = ground arith

or_right : (a b : Bool) → (a || b) ≡ true → a ≡ false → b ≡ true
or_right a b h k = ground arith

-- What no name of a list satisfies, a name of the list does not.
any-contains :
    (p : String → Bool) (names : List String) (name : String)
    → any p names ≡ false
    → contains names name ≡ true
    → p name ≡ false
any-contains p [] name h c = cc
any-contains p (n ∷ names) name h c =
    let (head, tail) = or-false (p n) (any p names) h in
    elim (Bool-cases (n == name)) [
      | inl same ↦ subst (λ x. p x ≡ false) ((eq_iff n name).0 same) head
      | inr other ↦
          any-contains p names name tail (or_right (n == name) (contains names name) c other)
    ]

-- The name of a header, as the redaction and the allowlist compare it, is no credential's.
abbrev pub IsHarmless : Texts → String → Type 0
IsHarmless t name = contains credential_headers (t.lower name) ≡ false

safe-AreHarmless : AreHarmless cross_origin_safe_headers
safe-AreHarmless = refl

may_cross-IsHarmless :
    (t : Texts) (forward : List String) (name : String)
    → AreHarmless forward
    → may_cross t forward name ≡ true
    → IsHarmless t name
may_cross-IsHarmless t forward name h may =
    elim (Bool-cases (contains cross_origin_safe_headers (t.lower name))) [
      | inl safe ↦
          any-contains (contains credential_headers) cross_origin_safe_headers (t.lower name)
            safe-AreHarmless safe
      | inr other ↦ any-contains (contains credential_headers) forward (t.lower name) h (
          or_right (contains cross_origin_safe_headers (t.lower name))
            (contains forward (t.lower name)) may other)
    ]

-- No header carries a credential.
abbrev pub WithoutCredentials : Texts → Option (Dict String) → Type 0
WithoutCredentials t none = Unit
WithoutCredentials t (some headers) = All (λ h. IsHarmless t h.0) headers

crossing-IsHarmless :
    (t : Texts) (forward : List String) (headers : Dict String)
    → AreHarmless forward
    → All (λ h. may_cross t forward h.0 ≡ true) headers
    → All (λ h. IsHarmless t h.0) headers
crossing-IsHarmless t forward [] h all = tt
crossing-IsHarmless t forward ((name, value) ∷ headers) h (may, all) =
    (may_cross-IsHarmless t forward name h may, crossing-IsHarmless t forward headers h all)

AllCross-WithoutCredentials :
    (t : Texts) (forward : List String) (headers : Option (Dict String))
    → AreHarmless forward
    → AllCross t forward headers
    → WithoutCredentials t headers
AllCross-WithoutCredentials t forward none h all = tt
AllCross-WithoutCredentials t forward (some headers) h all =
    crossing-IsHarmless t forward headers h all

-- No default header of the session carries a credential.
abbrev pub HarmlessDefaults : Texts → Option Session → Type 0
HarmlessDefaults t none = Unit
HarmlessDefaults t (some s) = All (IsHarmless t) s.headers

carries-IsHarmless :
    (l : Language) (forward names : List String)
    → AreHarmless forward
    → carries l forward names ≡ false
    → All (IsHarmless l.texts) names
carries-IsHarmless l forward [] h c = tt
carries-IsHarmless l forward (name ∷ names) h c =
    let (head, tail) =
      or-false (not (may_cross l.texts forward name)) (carries l forward names) c in
    (
      may_cross-IsHarmless l.texts forward name h (not-false (may_cross l.texts forward name) head),
      carries-IsHarmless l forward names h tail,
    )

IsBare-HarmlessDefaults :
    (l : Language) (forward : List String) (supplied : Option Session)
    → AreHarmless forward
    → IsBare l forward supplied
    → HarmlessDefaults l.texts supplied
IsBare-HarmlessDefaults l forward none h bare = tt
IsBare-HarmlessDefaults l forward (some s) h (open_, defaults, auth) =
    carries-IsHarmless l forward s.headers h defaults

module _ {ℓ} {R : Type ℓ} (l : Language) (offers : String → Bool)
    (read : String → Response → Attempt R) (call : Call) where
  -- The request goes to the origin of the call's URL, or it has no cookies, no auth and no header of
  -- a credential.
  abbrev pub KeepsSecrets : Sent → Type 0
  KeepsSecrets s =
      GoesHome l.texts l.urls offers read call s.target
      ⊎ (WithoutCredentials l.texts s.headers × (s.cookies ≡ none) × (s.auth ≡ none))

  kept :
      AreHarmless call.cross_origin_forward
      → (s : Sent) → IsDiscreet l.texts l.urls offers read call s
      → KeepsSecrets s
  kept h s (inl home) = inl home
  kept h s (inr (headers, cookies, auth)) = inr (
    AllCross-WithoutCredentials l.texts call.cross_origin_forward s.headers h headers,
    cookies,
    auth,
  )

  All-kept :
      AreHarmless call.cross_origin_forward
      → (requests : List Sent) → All (IsDiscreet l.texts l.urls offers read call) requests
      → All KeepsSecrets requests
  All-kept h [] all = tt
  All-kept h (s ∷ requests) (d, all) = (kept h s d, All-kept h requests all)

  -- Whatever options construct a client, a chain of redirects that forwards the headers which the
  -- client declares sends no cookies, no auth and no header of a known credential to another origin
  -- than that of the call's URL, and the session that the client keeps has no such header as a
  -- default.
  pub new_http_request-KeepsSecrets :
      (built_in : Tracer) (info : Dict Given) (url : String) (auth timeout : Given)
      (c : HttpRequest) (started : ℕ) (turns : ℕ → Turn) (body : Dict ℕ) (cs : List Collector)
      (fuel : ℕ) (e : Ended R)
      → new_http_request l built_in info url auth timeout ≡ ok c
      → call.cross_origin_forward ≡ c.cross_origin_forward
      → make_http_request l.texts l.urls offers read call started turns body cs fuel ≡ some e
      → All KeepsSecrets e.requests × HarmlessDefaults l.texts c.session
  new_http_request-KeepsSecrets built_in info url auth timeout c started turns body cs fuel e built
        same runs =
      let guarded = new_http_request-IsGuarded l built_in info url auth timeout c built in
      (
        All-kept (subst AreHarmless (sym same) guarded.forward) e.requests (
            make_http_request-IsDiscreet l.texts l.urls offers read call started turns body cs fuel
              e runs),
        IsBare-HarmlessDefaults l c.cross_origin_forward c.session guarded.forward guarded.session,
      )
