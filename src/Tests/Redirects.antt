-- ===== src/Tests/Redirects.antt =====
-- The redirect loop of asyncio_gateway/helpers/internal/request_helper.py at concrete inputs.
use async_gateway.Redirects.Collectors.{measure_redirect}
use async_gateway.Redirects.Collectors.{record_redirect}
use async_gateway.Redirects.{cross_origin_headers}
use async_gateway.Redirects.{after_redirect}
use async_gateway.Redirects.{same_origin}
use async_gateway.Redirects.{redirect_target}
use async_gateway.Redirects.{hop_deadline}
use async_gateway.Redirects.{resolve_verb}
use async_gateway.Redirects.Chain.{pass}
use async_gateway.Prelude.{
  ℕ, suc, ◌≤◌, ◌≡◌, ◌+◌, refl, true, false, none, some, String, Bool, [], ◌∷◌, length, arith, ◌==◌,
  if◌then◌else◌, All,
}
use async_gateway.Prelude.Int.{pos}
use async_gateway.Values.Texts.{Texts, Urls}
use async_gateway.Redirects.{Attempt, done}
use async_gateway.Redirects.Collectors.{Collector}
use async_gateway.Redirects.Chain.{Call, Sent, Response, Turn, Ended, make_http_request}
use async_gateway.Redirects.Lengths.{make_http_request_total}
use async_gateway.Redirects.Origins.{IsDiscreet, make_http_request-IsDiscreet}
use async_gateway.Redirects.Targets.{IsAdmitted, make_http_request-IsAdmitted}
use async_gateway.Redirects.Requests.{AllFrom}
use async_gateway.Redirects.Deadlines.{InTime, make_http_request-InTime}

-- Texts that are in the case that the code wants them in already.
abbrev pub plain : Texts
plain = record { lower = λ s. s; upper = λ s. s; strip = λ s. s }

-- Two hosts of the scheme `https`, and a reference that replaces the whole URL.
abbrev pub hosts : Urls
hosts = record {
  split = λ url.
      some (record { scheme = "https"; netloc = url; hostname = some url; port = some none });
  join = λ base reference. some reference;
}

abbrev pub offers_all : String → Bool
offers_all s = true

abbrev pub read_id : String → Response → Attempt ℕ
read_id target r = done r.id

abbrev pub fetch : Call
fetch = record {
  url = "a";
  request_type = "get";
  headers = some (("accept", "text/xml") ∷ ("x-api-key", "secret") ∷ []);
  cookies = some 1;
  auth = some 2;
  allow_redirects = true;
  max_redirects = 3;
  allowed_schemes = "https" ∷ [];
  cross_origin_forward = [];
  timeout = record { total = some 100; connect = none; sock_connect = none; sock_read = none };
}

abbrev pub tracer : Collector
tracer = record { on_request_start = none; on_request_redirect = none; is_redirect = false }

-- `a` answers 302 with a location, and `b` answers 200. Each request starts the tracer afresh.
abbrev pub turns : ℕ → Turn
turns n = record {
  now = n;
  traced =
      λ c. record { on_request_start = some n; on_request_redirect = none; is_redirect = false };
  reply = λ s. done (
      if s.target == "a"
      then record { status = 302; location = some "b"; id = 0 }
      else record { status = 200; location = none; id = 7 });
  followed_at = suc n;
  built = done [];
}

abbrev pub last_request : Sent
last_request = record {
  verb = "get";
  target = "b";
  limits = record { total = some 99; connect = none; sock_connect = none; sock_read = none };
  headers = some (("accept", "text/xml") ∷ []);
  cookies = none;
  auth = none;
  body = [];
}

abbrev pub first_request : Sent
first_request = record {
  verb = "get";
  target = "a";
  limits = record { total = some 100; connect = none; sock_connect = none; sock_read = none };
  headers = fetch.headers;
  cookies = some 1;
  auth = some 2;
  body = [];
}

abbrev two_hops : Ended ℕ
two_hops = record {
  requests = first_request ∷ last_request ∷ [];
  collectors =
      record { on_request_start = some 1; on_request_redirect = some (pos 1); is_redirect = true }
      ∷ [];
  outcome = done 7;
}

fetched :
    make_http_request plain hosts offers_all read_id fetch 0 turns [] (tracer ∷ []) 4
    ≡ some two_hops
unfolding make_http_request pass resolve_verb hop_deadline redirect_target same_origin
    after_redirect cross_origin_headers record_redirect measure_redirect
fetched = refl

make_http_request_total_example :
    (e : Ended ℕ) × (make_http_request plain hosts offers_all read_id fetch 0 turns []
        (tracer ∷ [])
        4
      ≡ some e)
    × (length e.requests ≤ 4)
make_http_request_total_example =
    make_http_request_total plain hosts offers_all read_id fetch 0 turns [] (tracer ∷ []) 4
      (omega arith)

make_http_request-IsDiscreet_example :
    All (IsDiscreet plain hosts offers_all read_id fetch) two_hops.requests
make_http_request-IsDiscreet_example =
    make_http_request-IsDiscreet plain hosts offers_all read_id fetch 0 turns [] (tracer ∷ []) 4
      two_hops fetched

make_http_request-IsAdmitted_example :
    All (λ s. IsAdmitted plain hosts offers_all read_id fetch s.target) two_hops.requests
make_http_request-IsAdmitted_example =
    make_http_request-IsAdmitted plain hosts offers_all read_id fetch 0 turns [] (tracer ∷ []) 4
      two_hops fetched

make_http_request-InTime_example :
    AllFrom (InTime plain hosts offers_all read_id fetch (0 + 100) turns) 0 two_hops.requests
make_http_request-InTime_example =
    make_http_request-InTime plain hosts offers_all read_id fetch 0 100 turns [] (tracer ∷ []) 4
      two_hops refl fetched
