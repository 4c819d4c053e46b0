-- ===== src/Redirects/Collectors.antt =====
-- The tracers' results and the trace of a redirect
-- (asyncio_gateway/helpers/internal/request_helper.py).
use async_gateway.Prelude.{ℕ, Bool, true, Option, none, some, List, [], ◌∷◌}
use async_gateway.Prelude.Int.{ℤ, difference}

-- The results mapping of one tracer.
pub record Collector : Type 0 where
  pub on_request_start : Option ℕ
  pub on_request_redirect : Option ℤ
  pub is_redirect : Bool

-- `RedirectEvent`: per collector the time from its own start.
abbrev pub RedirectEvent : Type 0
RedirectEvent = List (Option ℤ)

-- `measure_redirect`, when the loop's clock reads `now`.
unfoldable pub measure_redirect : ℕ → List Collector → RedirectEvent
measure_redirect now [] = []
measure_redirect now (c ∷ cs) = elapsed c.on_request_start ∷ measure_redirect now cs
  where
    elapsed : Option ℕ → Option ℤ
    elapsed none = none
    elapsed (some started) = some (difference now started)

abbrev pub marked : Option ℤ → Collector → Collector
marked none c = record c { is_redirect = true }
marked (some t) c = record c { on_request_redirect = some t; is_redirect = true }

abbrev pub mark_all : RedirectEvent → List Collector → List Collector
mark_all (t ∷ ts) (c ∷ cs) = marked t c ∷ mark_all ts cs
mark_all ts cs = cs

-- `record_redirect`
unfoldable pub record_redirect : Option RedirectEvent → List Collector → List Collector
record_redirect none cs = cs
record_redirect (some event) cs = mark_all event cs

abbrev pub trace_all : (Collector → Collector) → List Collector → List Collector
trace_all f [] = []
trace_all f (c ∷ cs) = f c ∷ trace_all f cs
