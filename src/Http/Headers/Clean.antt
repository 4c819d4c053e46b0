-- ===== src/Http/Headers/Clean.antt =====
-- What the checks of the headers, the cookies and the declared names leave
-- (asyncio_gateway/logic/http_client.py).
use async_gateway.Prelude.{
  ◌≡◌, ◌⊎◌, inl, inr, subst, String, true, false, Option, none, some, List, [], ◌∷◌, ◌==◌, Dict,
  any, all, contains, arith, All,
}
use async_gateway.Values.{Value, ok}
use async_gateway.Values.Checked.{bind-ok, ok_injective}
use async_gateway.Http.{Language, Given, as_mapping}
use async_gateway.Http.Headers.{
  is_forbidden_in_header, is_forbidden_in_cookie, is_legal_in_name, credential_headers, mapped, jar,
  checked_header_text, checked_items, validated_headers, checked_cookie, checked_cookies,
  validated_cookies, validated_cross_origin_headers,
}

-- No name of a header that is known to carry a credential.
abbrev pub AreHarmless : List String → Type 0
AreHarmless names = any (contains credential_headers) names ≡ false

module _ (l : Language) where
  -- No character that ends a header's line early.
  abbrev pub IsOneLine : String → Type 0
  IsOneLine s = any is_forbidden_in_header (l.code_points s) ≡ false

  abbrev pub AreHeaders : Dict String → Type 0
  AreHeaders headers = All (λ h. IsOneLine h.0 × IsOneLine h.1) headers

  abbrev pub IsCookie : String × String → Type 0
  IsCookie cookie =
      ((cookie.0 == "") ≡ false)
      × (all is_legal_in_name (l.code_points cookie.0) ≡ true)
      × (any is_forbidden_in_cookie (l.code_points cookie.1) ≡ false)

  abbrev pub AreCookies : Option (Dict String) → Type 0
  AreCookies none = Unit
  AreCookies (some cookies) = All IsCookie cookies

  checked_header_text-IsOneLine :
      (setting : String) (v : Value) (s : String)
      → checked_header_text l setting v ≡ ok s
      → IsOneLine s
  unfolding checked_header_text
  checked_header_text-IsOneLine setting v s h = ground arith

  checked_items-AreHeaders :
      (setting : String) (kvs : List (Value × Value)) (headers : Dict String)
      → checked_items l setting kvs ≡ ok headers
      → AreHeaders headers
  unfolding checked_items
  checked_items-AreHeaders setting [] headers h = ground arith
  checked_items-AreHeaders setting ((name, v) ∷ rest) headers h =
      let (n, named, h1) = bind-ok (checked_header_text l setting name) _ headers h in
      let (w, valued, h2) = bind-ok (checked_header_text l setting v) _ headers h1 in
      let (more, got, h3) = bind-ok (checked_items l setting rest) _ headers h2 in
      let one = checked_header_text-IsOneLine setting name n named in
      let two = checked_header_text-IsOneLine setting v w valued in
      let three = checked_items-AreHeaders setting rest more got in
      subst AreHeaders (ok_injective h3) ((one, two), three)

  mapped-AreHeaders :
      (setting : String) (o : Option (List (Value × Value))) (headers : Dict String)
      → mapped l setting o ≡ ok headers
      → AreHeaders headers
  mapped-AreHeaders setting none headers h = cc
  mapped-AreHeaders setting (some kvs) headers h = checked_items-AreHeaders setting kvs headers h

  pub validated_headers-AreHeaders :
      (setting : String) (given : Given) (headers : Dict String)
      → validated_headers l setting given ≡ ok headers
      → AreHeaders headers
  unfolding validated_headers
  validated_headers-AreHeaders setting given headers h =
      let cases : ([] ≡ headers) ⊎ (mapped l setting (as_mapping given) ≡ ok headers) =
        ground arith in
      elim cases [
        | inl nothing ↦ subst AreHeaders nothing tt
        | inr got ↦ mapped-AreHeaders setting (as_mapping given) headers got
      ]

  checked_cookie-IsCookie :
      (name v : Value) (cookie : String × String)
      → checked_cookie l name v ≡ ok cookie
      → IsCookie cookie
  unfolding checked_cookie
  checked_cookie-IsCookie name v cookie h = ground arith

  checked_cookies-AreCookies :
      (kvs : List (Value × Value)) (cookies : Dict String)
      → checked_cookies l kvs ≡ ok cookies
      → All IsCookie cookies
  unfolding checked_cookies
  checked_cookies-AreCookies [] cookies h = ground arith
  checked_cookies-AreCookies ((name, v) ∷ rest) cookies h =
      let (c, checked, h1) = bind-ok (checked_cookie l name v) _ cookies h in
      let (more, got, h2) = bind-ok (checked_cookies l rest) _ cookies h1 in
      subst (All IsCookie) (ok_injective h2)
        (checked_cookie-IsCookie name v c checked, checked_cookies-AreCookies rest more got)

  jar-AreCookies :
      (o : Option (List (Value × Value))) (cookies : Option (Dict String))
      → jar l o ≡ ok cookies
      → AreCookies cookies
  jar-AreCookies none cookies h = cc
  jar-AreCookies (some kvs) cookies h =
      let (checked, got, h1) = bind-ok (checked_cookies l kvs) _ cookies h in
      subst AreCookies (ok_injective h1) (checked_cookies-AreCookies kvs checked got)

  pub validated_cookies-AreCookies :
      (given : Given) (cookies : Option (Dict String))
      → validated_cookies l given ≡ ok cookies
      → AreCookies cookies
  unfolding validated_cookies
  validated_cookies-AreCookies given cookies h =
      let cases : (none ≡ cookies) ⊎ (jar l (as_mapping given) ≡ ok cookies) = ground arith in
      elim cases [
        | inl nothing ↦ subst AreCookies nothing tt
        | inr got ↦ jar-AreCookies (as_mapping given) cookies got
      ]

  pub validated_cross_origin_headers-AreHarmless :
      (given : Given) (names : List String)
      → validated_cross_origin_headers l given ≡ ok names
      → AreHarmless names
  unfolding validated_cross_origin_headers
  validated_cross_origin_headers-AreHarmless given names h = ground arith
