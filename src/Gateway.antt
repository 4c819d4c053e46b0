-- ===== src/Gateway.antt =====
-- The public entry point (asyncio_gateway/asyncio_gateway.py) over its envelope
-- (asyncio_gateway/utils/envelope.py).
-- The protocol clients, the processors that a caller supplies, the redaction of texts and the clocks
-- are parameters, in the record `Host`.
pub mod Envelope
pub mod Checks
pub mod Targets
pub mod Prepared
pub mod Request
pub mod Whole
pub mod Routes
pub mod Failing
pub mod Early
use async_gateway.Prelude.{ℕ, String, Bool, Option, none, some, Dict}
use async_gateway.Values.{Value, Fields, Result}
use async_gateway.Values.Floats.{Float}
use async_gateway.Values.Texts.{Texts, Urls}
use async_gateway.Errors.{ErrorClass}
use async_gateway.Errors.Chain.{Store}

-- What is raised: an error of the package, with its status and its object; a `RecursionError`; another
-- exception; or a `BaseException` that is no `Exception`, such as a cancellation.
pub data Raised : Type 0 where
  gateway : ErrorClass → (status : ℕ) → (id : ℕ) → Raised
  recursion : (id : ℕ) → Raised
  foreign : (id : ℕ) → Raised
  cancelled : (id : ℕ) → Raised

-- A processor's run: it may write anything to the envelope, and remove anything from it.
pub record Processed : Type 0 where
  pub envelope : Dict Value
  pub failure : Option Raised
  pub returned : Value

-- A protocol client's work on the envelope that it was given: what it assigns, in order, and what it
-- raises. No client removes a key.
pub record Worked : Type 0 where
  pub writes : Dict Value
  pub failure : Option Raised

-- A strategy class: `validate_protocol_info`, the constructor and `handle_request`.
pub record Strategy : Type 0 where
  pub validate_info : Value → String → Result (Dict Value)
  pub construct : String → Value → Dict Value → Dict Value → Worked
  pub handle : String → Value → Dict Value → Dict Value → Worked

pub record Host : Type 0 where
  pub texts : Texts
  pub urls : Urls
  -- the redactions, by the caller's `redact_query_params`
  pub redact_url : Option Value → String → String
  pub redact_text : Option Value → String → String
  pub redact_payload : Value → Value
  pub utc_now : String
  pub elapsed : Float
  -- `protocol_mapping[name]`
  pub strategy : String → Strategy
  pub processor : Value → Dict Value → Dict Value → Processed
  -- the exception objects, the one that is raised from another, and the bound of a chain's walk
  pub store : Store
  pub raise_new : ErrorClass → Option ℕ → ℕ
  pub max_depth : ℕ
