-- ===== src/Http.antt =====
-- The HTTP client (asyncio_gateway/logic/http_client.py): the values that its options can have.
-- Parts of the language's texts that the client uses are parameters.
pub mod Headers
pub mod Sessions
pub mod Limits
pub mod Client
pub mod Exchange
use async_gateway.Prelude.{
  ℕ, zero, suc, String, Bool, true, false, not, Option, none, some, List, [], ◌∷◌, map, Dict,
  lookup,
}
use async_gateway.Prelude.Int.{pos}
use async_gateway.Values.{
  Value, none_value, int, text, bytes, list, dict, items, fields, truthy, Refusal, Result, ok, err,
}
use async_gateway.Values.Texts.{Texts, Urls}

-- `code_points` are those of a text, in order; `probe` is what the caller's callable makes of an empty
-- dict.
pub data Probe : Type 0 where
  returns_text returns_other : Probe
  raises : (callable : ℕ) → Probe

pub record Language : Type 0 where
  pub texts : Texts
  pub urls : Urls
  pub code_points : String → List ℕ
  pub probe : Value → Probe

-- An `aiohttp.TraceConfig`, with the identity of the mapping in its `results_collector`, if it has one.
pub record Tracer : Type 0 where
  pub id : ℕ
  pub collector : Option ℕ

-- An `aiohttp.ClientSession`: its default headers' names, its auth, its tracers.
pub record Session : Type 0 where
  pub closed : Bool
  pub headers : List String
  pub auth : Option ℕ
  pub trace_configs : List Tracer

-- An entry of a collection.
pub data Entry : Type 0 where
  plain : Value → Entry
  tracing : Tracer → Entry

-- What an option can be: a value of the language, a mapping whose keys are not all texts, a collection
-- other than a list, or an object of aiohttp.
pub data Given : Type 0 where
  value : Value → Given
  mapping : List (Value × Value) → Given
  collection : List Entry → Given
  session : Session → Given
  tracer : Tracer → Given
  basic_auth : ℕ → Given

abbrev pub items_of : Dict Value → List (Value × Value)
items_of [] = []
items_of ((name, v) ∷ rest) = (text name, v) ∷ items_of rest

-- The items of a `Mapping`.
unfoldable pub as_mapping : Given → Option (List (Value × Value))
as_mapping (value (dict fs)) = some (items_of (fields fs))
as_mapping (mapping kvs) = some kvs
as_mapping _ = none

abbrev pub key_entries : List (Value × Value) → List Entry
key_entries kvs = map (λ kv. plain kv.0) kvs

-- What the iteration of a `Collection` gives; a mapping gives its keys, bytes their numbers. A text is
-- a collection as well, but each caller has refused it before.
unfoldable pub as_collection : Given → Option (List Entry)
as_collection (value (list vs)) = some (map plain (items vs))
as_collection (value (dict fs)) = some (key_entries (items_of (fields fs)))
as_collection (value (bytes ns)) = some (map (λ n. plain (int (pos n))) ns)
as_collection (mapping kvs) = some (key_entries kvs)
as_collection (collection es) = some es
as_collection _ = none

abbrev pub is_text : Given → Bool
is_text (value (text s)) = true
is_text _ = false

-- `info.get(key)`
abbrev pub or_none : Option Given → Given
or_none none = value none_value
or_none (some given) = given

abbrev pub option : String → Dict Given → Given
option key info = or_none (lookup key info)

abbrev pub option_or : String → Given → Dict Given → Given
option_or key default info = elim (lookup key info) [ none ↦ default | some given ↦ given ]
