-- ===== src/Values.antt =====
-- The values of the host language that a caller can put into a configuration, and the result type of
-- the functions that check them.
pub mod Floats
pub mod Texts
pub mod Checked
use async_gateway.Prelude.{
  not, eqb, ◌==◌, ℕ, String, Bool, true, false, Option, none, some, List, [], ◌∷◌, Dict,
}
use async_gateway.Prelude.Int.{ℤ, pos}
use async_gateway.Values.Floats.{Float, finite}

-- A dict's keys are texts. `function` and `exception_class` are told apart by an identity; `object`
-- is a value of any other type, with the name of the type.
mutual
  pub data Value : Type 0 where
    none_value : Value
    bool : Bool → Value
    int : ℤ → Value
    float : Float → Value
    text : String → Value
    bytes : List ℕ → Value
    list : Values → Value
    dict : Fields → Value
    function : ℕ → Value
    exception_class : ℕ → Value
    object : String → Value

  pub data Values : Type 0 where
    nil : Values
    cons : Value → Values → Values

  pub data Fields : Type 0 where
    end : Fields
    field : String → Value → Fields → Fields

abbrev pub fields : Fields → Dict Value
fields end = []
fields (field k v fs) = (k, v) ∷ fields fs

abbrev pub items : Values → List Value
items nil = []
items (cons v vs) = v ∷ items vs

-- Why a configuration is refused: a `ConfigurationError`, with the setting that its message names,
-- or an exception of the language that the code does not convert.
pub data Refusal : Type 0 where
  not_a_mapping wrong_type below_minimum not_whole missing unknown_name reserved_name :
      String → Refusal
  -- a character, a credential or a closed session that a setting may not have; two settings that
  -- exclude each other; no setting of its values
  bad_character credential closed_session excluded unsupported nothing_named : String → Refusal
  -- a call's own arguments that no setting names
  no_protocol bad_url no_authority bad_scheme bad_port data_refused bad_encoding : Refusal
  unknown_keys : String → List String → Refusal
  overflow_error value_error type_error attribute_error : Refusal
  -- an exception of a callable that the caller supplied
  raised_by : (callable : ℕ) → Refusal

-- What a check returns, or the exception that it raises.
pub data Result {ℓ} (Checked : Type ℓ) : Type ℓ where
  err : (reason : Refusal) → Result Checked
  ok : (value : Checked) → Result Checked

infixl 5 ◌>>=◌ ◌>>◌
-- The next check runs on the value of the one before; an exception passes by.
abbrev pub ◌>>=◌ {κ ℓ} :
    {Checked : Type κ} {Next : Type ℓ} → Result Checked → (Checked → Result Next) → Result Next
err reason >>= next = err reason
ok value >>= next = next value

-- A check that has no value of its own.
abbrev pub ◌>>◌ {ℓ} : {Next : Type ℓ} → Result (Unit {0}) → Result Next → Result Next
check >> next = check >>= λ unit. next

-- The refusal is a `ConfigurationError`.
abbrev pub is_configuration : Refusal → Bool
is_configuration overflow_error = false
is_configuration value_error = false
is_configuration type_error = false
is_configuration attribute_error = false
is_configuration (raised_by callable) = false
is_configuration _ = true

-- `bool(value)`; an `object` is taken to be true.
unfoldable pub truthy : Value → Bool
truthy none_value = false
truthy (bool b) = b
truthy (int (pos n)) = not (eqb n 0)
truthy (float (finite negative m k)) = not (eqb m 0)
truthy (text s) = not (s == "")
truthy (bytes []) = false
truthy (list nil) = false
truthy (dict end) = false
truthy _ = true
