-- ===== src/Settings/Checks.antt =====
-- The checks of one setting (asyncio_gateway/helpers/internal/circuit_breaker_helper.py).
-- A whole number up to 2 ^ 53 is the same float; a larger one is kept exact, where the host rounds.
use async_gateway.Prelude.{
  ℕ, ◌-◌, ◌^◌, String, Bool, Option, none, some, List, [], ◌∷◌, leb, if◌then◌else◌, Dict, lookup,
  keys, contains,
}
use async_gateway.Prelude.Int.{pos, negsuc}
use async_gateway.Values.{
  Value, none_value, bool, int, float, list, function, exception_class, items, wrong_type,
  below_minimum, unknown_keys, overflow_error, Result, ok, err, ◌>>=◌,
}
use async_gateway.Values.Floats.{Float, whole, is_negative}

-- The least whole number that `float` cannot convert.
unfoldable pub float_limit : ℕ
float_limit = 2 ^ 1024 - 2 ^ 970

-- `float(value)` of a number that is not negative.
unfoldable pub float_of_nat : ℕ → Result Float
unfolding float_limit
float_of_nat n = if leb float_limit n then err overflow_error else ok (whole n)

-- The tests on a value that is there: `is_number`, the minimum of 0, and `float(value)`.
number_in : String → Value → Result Float
unfolding float_of_nat
number_in key (int (pos n)) = float_of_nat n
number_in key (int (negsuc n)) = err (below_minimum key)
number_in key (float x) = if is_negative x then err (below_minimum key) else ok x
number_in key _ = err (wrong_type key)

-- `_validated_number` with its default minimum, which every caller uses.
unfoldable pub validated_number : Dict Value → String → Float → Result Float
unfolding number_in
validated_number config key default = elim (lookup key config) [
  | none ↦ ok default
  | some value ↦ number_in key value
]

bool_in : String → Value → Result Bool
bool_in key (bool b) = ok b
bool_in key _ = err (wrong_type key)

-- `_validated_bool`
unfoldable pub validated_bool : Dict Value → String → Bool → Result Bool
unfolding bool_in
validated_bool config key default = elim (lookup key config) [
  | none ↦ ok default
  | some value ↦ bool_in key value
]

-- The keys outside the accepted ones.
unfoldable pub unknown : List String → List String → List String
unknown allowed [] = []
unknown allowed (k ∷ ks) =
    let rest = unknown allowed ks in if contains allowed k then rest else k ∷ rest

abbrev refuse_some : String → List String → Result (Unit {0})
refuse_some where_ [] = ok tt
refuse_some where_ (k ∷ ks) = err (unknown_keys where_ (k ∷ ks))

-- `_reject_unknown_keys`
unfoldable pub reject_unknown_keys : Dict Value → List String → String → Result (Unit {0})
unfolding unknown
reject_unknown_keys config allowed where_ = refuse_some where_ (unknown allowed (keys config))

-- The classes of a list, in order; anything else in it is refused.
classes_of : String → List Value → Result (List ℕ)
classes_of key [] = ok []
classes_of key (exception_class c ∷ vs) = do cs ← classes_of key vs; ok (c ∷ cs)
classes_of key (_ ∷ vs) = err (wrong_type key)

exceptions_in : String → Value → Result (Option (List ℕ))
unfolding classes_of
exceptions_in key none_value = ok none
exceptions_in key (list vs) = do cs ← classes_of key (items vs); ok (some cs)
exceptions_in key _ = err (wrong_type key)

-- `_validated_exceptions`
unfoldable pub validated_exceptions : Dict Value → String → Result (Option (List ℕ))
unfolding exceptions_in
validated_exceptions config key = elim (lookup key config) [
  | none ↦ ok none
  | some value ↦ exceptions_in key value
]

callable_in : String → Value → Result (Option Value)
callable_in key none_value = ok none
callable_in key (function f) = ok (some (function f))
callable_in key (exception_class c) = ok (some (exception_class c))
callable_in key _ = err (wrong_type key)

-- `_validated_callable`; a class is callable.
unfoldable pub validated_callable : Dict Value → String → Result (Option Value)
unfolding callable_in
validated_callable config key = elim (lookup key config) [
  | none ↦ ok none
  | some value ↦ callable_in key value
]
