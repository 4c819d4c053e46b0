-- ===== src/Gateway/Early.antt =====
-- What is refused before any code of the caller runs (asyncio_gateway/asyncio_gateway.py).
use async_gateway.Prelude.{String, Bool, true, false, ◌≡◌, refl, List, [], arith, ◌⊎◌}
use async_gateway.Values.{Value, truthy, Refusal, Result, ok, err}
use async_gateway.Gateway.{Host}
use async_gateway.Gateway.Checks.{validated_processor_config}
use async_gateway.Gateway.Prepared.{Prepared, Arguments, prepare, processor_in}
use async_gateway.Gateway.Request.{Event, Ends, refused, request, started}

-- The call is refused and nothing has happened.
abbrev pub IsRefusedEarly : List Event × Ends → Type 0
IsRefusedEarly story = (story.0 ≡ []) × ((e : Refusal) × (story.1 ≡ refused e))

started-IsRefusedEarly :
    (host : Host) (auth : Value) (r : Result Prepared) (e : Refusal)
    → r ≡ err e
    → IsRefusedEarly (started host auth r)
started-IsRefusedEarly host auth (err e') e h = (refl, (e', refl))
started-IsRefusedEarly host auth (ok p) e h = cc

abbrev is_err {ℓ} : {A : Type ℓ} → Result A → Bool
is_err (ok a) = false
is_err (err e) = true

is_err-err {ℓ} : {A : Type ℓ} (r : Result A) → is_err r ≡ true → (e : Refusal) × (r ≡ err e)
is_err-err (ok a) h = cc
is_err-err (err e) h = (e, refl)

prepare-is_err :
    (host : Host) (a : Arguments) (setting : String) (config : Value) (e : Refusal)
    → ((setting ≡ "pre_processor_config") × (config ≡ a.pre_processor_config))
      ⊎ ((setting ≡ "post_processor_config") × (config ≡ a.post_processor_config))
    → truthy config ≡ true
    → validated_processor_config setting config ≡ err e
    → is_err (prepare host a) ≡ true
unfolding prepare processor_in
prepare-is_err host a setting config e which t h = ground arith

-- A malformed pre- or post-processor configuration is refused before either processor runs and
-- before a client is constructed, whatever the other arguments are.
pub request-IsRefusedEarly :
    (host : Host) (a : Arguments) (setting : String) (config : Value) (e : Refusal)
    → ((setting ≡ "pre_processor_config") × (config ≡ a.pre_processor_config))
      ⊎ ((setting ≡ "post_processor_config") × (config ≡ a.post_processor_config))
    → truthy config ≡ true
    → validated_processor_config setting config ≡ err e
    → IsRefusedEarly (request host a)
unfolding request
request-IsRefusedEarly host a setting config e which t h =
    let (e', refused_) =
      is_err-err (prepare host a) (prepare-is_err host a setting config e which t h) in
    started-IsRefusedEarly host a.auth (prepare host a) e' refused_
