-- ===== src/Http/Client/Guarded.antt =====
-- What every constructed client has been checked for (asyncio_gateway/logic/http_client.py).
use async_gateway.Prelude.{
  ℕ, ◌<◌, ◌≡◌, ◌≢◌, inl, inr, Bool-cases, subst, String, true, false, ◌&&◌, Option, none, some,
  List, [], ◌∷◌, Dict, contains, arith,
}
use async_gateway.Values.{dict, end, bool, int, ok}
use async_gateway.Values.Floats.{Float}
use async_gateway.Values.Checked.{bind-ok, ok_injective}
use async_gateway.Redirects.{http_verbs}
use async_gateway.Prelude.Int.{pos}
use async_gateway.Settings.Checks.{float_of_nat}
use async_gateway.Http.{
  Entry, as_collection, Language, Tracer, Session, Given, value, option, option_or,
}
use async_gateway.Http.Headers.Clean.{
  AreHeaders, AreCookies, AreHarmless, validated_headers-AreHeaders, validated_cookies-AreCookies,
  validated_cross_origin_headers-AreHarmless,
}
use async_gateway.Http.Headers.{
  lowered_names, validated_headers, validated_cookies, validated_cross_origin_headers,
}
use async_gateway.Http.Sessions.{
  carries, validated_session, validated_serialization, validated_trace_config,
}
use async_gateway.Http.Limits.{
  is_get, is_given, is_unsupported, at_most_zero, validated_request_type, validated_upload_config,
  validated_timeout, validated_max_response_bytes, validated_allowed_schemes, scheme_names,
  validated_http_auth, validated_download_config, validated_allow_redirects,
  validated_max_redirects,
}
use async_gateway.Http.Client.{
  max_response_bytes, max_redirects, allowed_schemes, HttpRequest, new_http_request,
}

is_unsupported-contains :
    (name : String) → is_unsupported name ≡ false → contains http_verbs name ≡ true
unfolding is_unsupported
is_unsupported-contains name h = elim (Bool-cases (contains http_verbs name)) [
  | inl c ↦ c
  | inr c ↦ ground (arith, c)
]

module _ (l : Language) where
  abbrev pub IsVerb : String → Type 0
  IsVerb request_type = contains http_verbs (l.texts.lower (l.texts.strip request_type)) ≡ true

  validated_request_type-supported :
      (given : Given) (s : String)
      → validated_request_type l given ≡ ok s
      → is_unsupported (l.texts.lower (l.texts.strip s)) ≡ false
  unfolding validated_request_type
  validated_request_type-supported given s h = ground arith

  validated_request_type-IsVerb :
      (given : Given) (s : String) → validated_request_type l given ≡ ok s → IsVerb s
  validated_request_type-IsVerb given s h =
      is_unsupported-contains (l.texts.lower (l.texts.strip s))
        (validated_request_type-supported given s h)

  -- A supplied session is open, and has nothing that a redirect could not withhold.
  abbrev pub IsBare : List String → Option Session → Type 0
  IsBare forward none = Unit
  IsBare forward (some s) =
      (s.closed ≡ false) × (carries l forward s.headers ≡ false) × (s.auth ≡ none)

  validated_session-IsBare :
      (given : Given) (forward : List String) (supplied : Option Session)
      → validated_session l given forward ≡ ok supplied
      → IsBare forward supplied
  unfolding validated_session
  validated_session-IsBare given forward supplied h = ground arith

  validated_upload_config-sent :
      (given config : Given) (request_type : String)
      → validated_upload_config l given request_type ≡ ok config
      → (is_given config && is_get l request_type) ≡ false
  unfolding validated_upload_config
  validated_upload_config-sent given config request_type h = ground arith

  validated_max_response_bytes-positive :
      (given : Given) (n : ℕ) → validated_max_response_bytes given ≡ ok n → 0 < n
  unfolding validated_max_response_bytes
  validated_max_response_bytes-positive given n h = ground arith

  validated_timeout-positive :
      (given : Given) (x : Float) → validated_timeout given ≡ ok x → at_most_zero x ≡ false
  unfolding validated_timeout float_of_nat
  validated_timeout-positive given x h = ground arith

  lowered_names-named :
      (setting : String) (e : Entry) (es : List Entry) (names : List String)
      → lowered_names l setting (e ∷ es) ≡ ok names
      → names ≢ []
  unfolding lowered_names
  lowered_names-named setting e es names h = ground arith

  scheme_names-named :
      (o : Option (List Entry)) (names : List String) → scheme_names l o ≡ ok names → names ≢ []
  scheme_names-named none names h = cc
  scheme_names-named (some []) names h = cc
  scheme_names-named (some (e ∷ es)) names h = lowered_names-named "allowed_schemes" e es names h

  validated_allowed_schemes-named :
      (given : Given) (names : List String)
      → validated_allowed_schemes l given ≡ ok names
      → names ≢ []
  unfolding validated_allowed_schemes
  validated_allowed_schemes-named given names h =
      scheme_names-named (as_collection given) names (ground arith)

  -- What `__init__` has checked of a client.
  pub record IsGuarded (c : HttpRequest) : Type 0 where
    pub verb : IsVerb c.request_type
    pub cookies : AreCookies l c.cookies
    pub headers : AreHeaders l c.headers
    pub upload : (is_given c.http_file_upload_config && is_get l c.request_type) ≡ false
    pub timeout : at_most_zero c.timeout ≡ false
    pub forward : AreHarmless c.cross_origin_forward
    pub session : IsBare c.cross_origin_forward c.session
    pub bytes : 0 < c.max_response_bytes
    pub schemes : c.allowed_schemes ≢ []

  -- A client that is constructed has a verb that it knows, cookies and headers without characters that
  -- end a line, no upload with a GET, a timeout that is not zero or below, no credential among the
  -- headers that it declares to cross an origin, a session without defaults that a redirect would leak,
  -- a positive cap of bytes and some scheme.
  pub new_http_request-IsGuarded :
      (built_in : Tracer) (info : Dict Given) (url : String) (auth timeout : Given)
      (c : HttpRequest)
      → new_http_request l built_in info url auth timeout ≡ ok c
      → IsGuarded c
  unfolding new_http_request
  new_http_request-IsGuarded built_in info url auth timeout c h =
      let (verb, e1, h1) = bind-ok (validated_request_type l (option "request_type" info)) _ c h in
      let (a, e2, h2) = bind-ok (validated_http_auth l auth url) _ c h1 in
      let (cookies, e3, h3) = bind-ok (validated_cookies l (option "cookies" info)) _ c h2 in
      let (headers, e4, h4) =
        bind-ok (validated_headers l "headers" (option "headers" info)) _ c h3 in
      let (upload, e5, h5) =
        bind-ok
          (validated_upload_config l (option_or "http_file_upload_config" (value (dict end)) info)
            verb)
          _ c h4 in
      let (download, e6, h6) =
        bind-ok (validated_download_config (option "http_file_download_config" info)) _ c h5 in
      let (seconds, e7, h7) = bind-ok (validated_timeout timeout) _ c h6 in
      let (forward, e8, h8) =
        bind-ok (validated_cross_origin_headers l (option "cross_origin_headers" info)) _ c h7 in
      let (supplied, e9, h9) =
        bind-ok (validated_session l (option "session" info) forward) _ c h8 in
      let (serializer, e10, h10) = bind-ok (validated_serialization l info supplied) _ c h9 in
      let (tracers, e11, h11) = bind-ok (validated_trace_config built_in info supplied) _ c h10 in
      let (bytes, e12, h12) =
        bind-ok
          (validated_max_response_bytes
            (option_or "max_response_bytes" (value (int (pos max_response_bytes))) info))
          _ c h11 in
      let (allow, e13, h13) =
        bind-ok (validated_allow_redirects (option_or "allow_redirects" (value (bool true)) info)) _
          c h12 in
      let (redirects, e14, h14) =
        bind-ok
          (validated_max_redirects
            (option_or "max_redirects" (value (int (pos max_redirects))) info))
          _ c h13 in
      let (schemes, e15, h15) =
        bind-ok (validated_allowed_schemes l (option_or "allowed_schemes" allowed_schemes info)) _ c
          h14 in
      subst IsGuarded (ok_injective h15) (record {
        verb = validated_request_type-IsVerb (option "request_type" info) verb e1;
        cookies = validated_cookies-AreCookies l (option "cookies" info) cookies e3;
        headers = validated_headers-AreHeaders l "headers" (option "headers" info) headers e4;
        upload =
            validated_upload_config-sent
              (option_or "http_file_upload_config" (value (dict end)) info) upload verb e5;
        timeout = validated_timeout-positive timeout seconds e7;
        forward =
            validated_cross_origin_headers-AreHarmless l (option "cross_origin_headers" info)
              forward e8;
        session = validated_session-IsBare (option "session" info) forward supplied e9;
        bytes =
            validated_max_response_bytes-positive
              (option_or "max_response_bytes" (value (int (pos max_response_bytes))) info) bytes
              e12;
        schemes =
            validated_allowed_schemes-named (option_or "allowed_schemes" allowed_schemes info)
              schemes e15;
      })
