-- ===== src/Redirects.antt =====
-- What one redirect hop does to a request (asyncio_gateway/helpers/internal/request_helper.py, with
-- the verbs of asyncio_gateway/utils/http_file_config.py and the header names of
-- asyncio_gateway/utils/constants.py).
-- `lower`, `upper` and `strip` of the language's texts, and its `urllib.parse`, are parameters.
pub mod Collectors
pub mod Chain
pub mod Lengths
pub mod Requests
pub mod Origins
pub mod Targets
pub mod Deadlines
pub mod Traces
use async_gateway.Prelude.{
  ℕ, ◌-◌, String, Bool, true, false, not, ◌&&◌, ◌||◌, Option, none, some, List, [], ◌∷◌, ◌++◌, ◌==◌,
  leb, eqb, any, contains, Dict, if◌then◌else◌,
}
use async_gateway.Values.Texts.{Texts, Parts, Urls}
use async_gateway.Errors.{ErrorClass, unsupported_verb_error, configuration_error}

-- Why a chain ends without a response: an error of the package, by its class, the transport's
-- `asyncio.TimeoutError`, the host's `ValueError`, or another exception.
pub data Broken : Type 0 where
  gateway : ErrorClass → Option ℕ → Broken
  timed_out : Broken
  value_error : Broken
  foreign : ℕ → Broken

pub data Attempt {ℓ} (A : Type ℓ) : Type ℓ where
  done : A → Attempt A
  broke : Broken → Attempt A

abbrev pub http_verbs : List String
http_verbs = "delete" ∷ "get" ∷ "head" ∷ "options" ∷ "patch" ∷ "post" ∷ "put" ∷ []

-- `validated_verb`, of a text.
unfoldable pub validated_verb : Texts → List String → String → Attempt String
validated_verb t allowed verb =
    let name = t.lower (t.strip verb) in
    if name == "" || not (contains allowed name)
    then broke (gateway unsupported_verb_error none)
    else done name

-- `resolve_verb`: the operation is known by its name; `offers` is what the client has.
unfoldable pub resolve_verb : Texts → (String → Bool) → List String → String → Attempt String
unfolding validated_verb
resolve_verb t offers allowed verb = elim (validated_verb t allowed verb) [
  | broke e ↦ broke e
  | done name ↦ if offers name then done name else broke (gateway unsupported_verb_error none)
]

-- The scheme of a target whose authority can be read.
abbrev pub readable : Option (Option ℕ) → Option Parts → Option Parts
readable none parts = none
readable (some port) parts = parts

abbrev pub parsed : Option Parts → Option Parts
parsed none = none
parsed (some parts) = readable parts.port (some parts)

abbrev pub admitted : Texts → List String → String → Option Parts → Attempt String
admitted t allowed target none = broke (gateway configuration_error none)
admitted t allowed target (some parts) =
    if contains allowed (t.lower parts.scheme)
    then done target
    else broke (gateway configuration_error none)

abbrev pub resolved : Texts → Urls → List String → Option String → Attempt String
resolved t u allowed none = broke (gateway configuration_error none)
resolved t u allowed (some target) = admitted t allowed target (parsed (u.split target))

-- `redirect_target`
unfoldable pub redirect_target : Texts → Urls → List String → String → String → Attempt String
redirect_target t u allowed current location = resolved t u allowed (u.join current location)

-- `(parts.scheme, parts.hostname, parts.port)`; `none` where the port cannot be read.
abbrev with_port : Parts → Option (Option ℕ) → Option (String × Option String × Option ℕ)
with_port p none = none
with_port p (some port) = some (p.scheme, p.hostname, port)

abbrev origin_of : Option Parts → Option (String × Option String × Option ℕ)
origin_of none = none
origin_of (some p) = with_port p p.port

unfoldable pub origin : Urls → String → Option (String × Option String × Option ℕ)
origin u url = origin_of (u.split url)

abbrev pub same_host : Option String → Option String → Bool
same_host none none = true
same_host (some a) (some b) = a == b
same_host _ _ = false

abbrev pub same_port : Option ℕ → Option ℕ → Bool
same_port none none = true
same_port (some a) (some b) = eqb a b
same_port _ _ = false

abbrev pub compared :
    Option (String × Option String × Option ℕ)
    → Option (String × Option String × Option ℕ)
    → Option Bool
compared (some (s, h, p)) (some (s', h', p')) = some (s == s' && same_host h h' && same_port p p')
compared _ _ = none

-- `same_origin`; `none` is the `ValueError` of a URL or port that cannot be read.
unfoldable pub same_origin : Urls → String → String → Option Bool
unfolding origin
same_origin u left right = compared (origin u left) (origin u right)

abbrev pub cross_origin_safe_headers : List String
cross_origin_safe_headers =
    "accept" ∷ "accept-charset" ∷ "accept-encoding" ∷ "accept-language" ∷ "cache-control"
    ∷ "content-disposition" ∷ "content-encoding" ∷ "content-language" ∷ "content-length"
    ∷ "content-type" ∷ "pragma" ∷ "range" ∷ "user-agent" ∷ []

-- A header's name may cross an origin.
abbrev pub may_cross : Texts → List String → String → Bool
may_cross t also_forward name =
    contains cross_origin_safe_headers (t.lower name) || contains also_forward (t.lower name)

abbrev pub crossing : Texts → List String → Dict String → Dict String
crossing t also_forward [] = []
crossing t also_forward ((name, value) ∷ headers) =
    let rest = crossing t also_forward headers in
    if may_cross t also_forward name then (name, value) ∷ rest else rest

-- `cross_origin_headers`
unfoldable pub cross_origin_headers :
    Texts → List String → Option (Dict String) → Option (Dict String)
cross_origin_headers t also_forward none = none
cross_origin_headers t also_forward (some headers) = some (crossing t also_forward headers)

-- `aiohttp.ClientTimeout`, in nanoseconds.
pub record Timeout : Type 0 where
  pub total : Option ℕ
  pub connect : Option ℕ
  pub sock_connect : Option ℕ
  pub sock_read : Option ℕ

-- `hop_deadline`, when the clock reads `now`.
unfoldable pub hop_deadline : Timeout → Option ℕ → ℕ → Attempt Timeout
hop_deadline timeout none now = done timeout
hop_deadline timeout (some deadline) now =
    if leb deadline now
    then broke timed_out
    else done (record timeout { total = some (deadline - now) })

abbrev without_params {ℓ} : {B : Type ℓ} → Dict B → Dict B
without_params [] = []
without_params ((name, value) ∷ body) =
    let rest = without_params body in if name == "params" then rest else (name, value) ∷ rest

abbrev pub turns_to_get : ℕ → String → Bool
turns_to_get status verb =
    ((eqb status 301 || eqb status 302) && verb == "POST")
    || (eqb status 303 && not (verb == "HEAD"))

-- `after_redirect`
unfoldable pub after_redirect {ℓ} : {B : Type ℓ} → Texts → ℕ → String → Dict B → String × Dict B
after_redirect t status request_type body =
    if turns_to_get status (t.upper (t.strip request_type))
    then ("GET", [])
    else (request_type, without_params body)
