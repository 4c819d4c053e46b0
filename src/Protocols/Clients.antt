-- ===== src/Protocols/Clients.antt =====
-- The constructor that every protocol client shares (`BaseRequestClass.__init__` of
-- asyncio_gateway/helpers/internal/base.py), with the registry of breakers.
use async_gateway.Prelude.{
  ℕ, ◌≡◌, refl, ap, subst, String, Option, none, some, List, Dict, lookup, arith,
}
use async_gateway.Prelude.Int.{ℤ}
use async_gateway.Values.{Value, none_value, int, Result, ok, err}
use async_gateway.Values.Texts.{Texts, Urls}
use async_gateway.Settings.{BreakerSettings, validated_breaker_config}
use async_gateway.Registry.{BreakerKey, World, Callbacks, breaker_registry_max, given, get_breaker}
use async_gateway.Registry.Hits.{get_breaker-again}
use async_gateway.Protocols.{Letters, destination_of}

-- The breaker is known by its identity.
pub record Client : Type 0 where
  pub url : String
  pub auth : Value
  pub info : Dict Value
  pub redact_params : List String
  pub start_time : ℕ
  pub timeout : Value
  pub certificate : Value
  pub circuit_breaker : ℕ

-- `info.get('port')`, an `int` or nothing: the entry point has refused any other.
abbrev pub port_at : Option Value → Option ℤ
port_at (some (int n)) = some n
port_at _ = none

-- `info.get(key, default)`
abbrev pub option_or : Value → Option Value → Value
option_or default none = default
option_or default (some v) = v

-- The arguments of one construction: `protocol` is that of the envelope, `info` is empty where none
-- is given, and `now` is what `monotonic_now` reads.
pub record Arguments : Type 0 where
  pub protocol : String
  pub url : String
  pub auth : Value
  pub info : Dict Value
  pub redact_params : List String
  pub now : ℕ

-- The client with this breaker; `http_timeout` is `HTTP_TIMEOUT`.
abbrev pub equipped : Arguments → Value → ℕ → Client
equipped a http_timeout id = record {
  url = a.url;
  auth = a.auth;
  info = a.info;
  redact_params = a.redact_params;
  start_time = a.now;
  timeout = option_or http_timeout (lookup "timeout" a.info);
  certificate = option_or none_value (lookup "certificate" a.info);
  circuit_breaker = id;
}

abbrev pub client_of : Arguments → Value → Result ℕ → Result Client
client_of a http_timeout (err e) = err e
client_of a http_timeout (ok id) = ok (equipped a http_timeout id)

module _ (t : Texts) (u : Urls) (l : Letters) (c : Callbacks) (http_timeout : Value) where
  unfoldable pub destination : Arguments → Result BreakerKey
  unfolding destination_of
  destination a = destination_of t u l a.protocol a.url (port_at (lookup "port" a.info))

  abbrev pub config_of : Arguments → Option Value
  config_of a = lookup "circuit_breaker_config" a.info

  abbrev pub obtained : Arguments → World → Result BreakerKey → Result Client × World
  obtained a w (err e) = (err e, w)
  obtained a w (ok key) =
      let (id, w') = get_breaker c breaker_registry_max key (config_of a) w in
      (client_of a http_timeout id, w')

  unfoldable pub new_client : Arguments → World → Result Client × World
  unfolding destination get_breaker
  new_client a w = obtained a w (destination a)

  breaker_of :
      (a : Arguments) (id : Result ℕ) (client : Client)
      → client_of a http_timeout id ≡ ok client
      → id ≡ ok client.circuit_breaker
  breaker_of a (err e) client h = cc
  breaker_of a (ok id) client h = ground (arith, h)

  -- What a second construction gives in the registry that a first has left.
  abbrev pub Shares : Client → World → Result Client × World → Type 0
  Shares first w made =
      (second : Client) × (made.0 ≡ ok second)
      × (second.circuit_breaker ≡ first.circuit_breaker)
      × (made.1.breakers ≡ w.breakers)

  obtained-Shares :
      (a b : Arguments) (w : World) (key : BreakerKey) (first : Client) (s : BreakerSettings)
      → (obtained a w (ok key)).0 ≡ ok first
      → validated_breaker_config (given (config_of b)) ≡ ok s
      → Shares first (obtained a w (ok key)).1 (obtained b (obtained a w (ok key)).1 (ok key))
  obtained-Shares a b w key first s made accepted =
      let (same, kept) =
        get_breaker-again c breaker_registry_max key (config_of a) (config_of b) w
          first.circuit_breaker s (omega arith)
          (breaker_of a (get_breaker c breaker_registry_max key (config_of a) w).0 first made)
          accepted in
      (
        equipped b http_timeout first.circuit_breaker,
        ap (client_of b http_timeout) same,
        refl,
        kept,
      )

  -- Where a client has been constructed, the next one for the same destination, however its URL
  -- spells that, shares its breaker if its configuration is accepted, and no breaker is constructed
  -- for it.
  pub new_client-Shares :
      (a b : Arguments) (w : World) (key : BreakerKey) (first : Client) (s : BreakerSettings)
      → destination a ≡ ok key
      → destination b ≡ ok key
      → (new_client a w).0 ≡ ok first
      → validated_breaker_config (given (config_of b)) ≡ ok s
      → Shares first (new_client a w).1 (new_client b (new_client a w).1)
  unfolding new_client
  new_client-Shares a b w key first s here there made accepted =
      rw (here, there)
        (obtained-Shares a b w key first s (subst (λ d. (obtained a w d).0 ≡ ok first) here made)
          accepted)
