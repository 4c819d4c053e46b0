-- ===== src/Errors/Table.antt =====
-- What the class table and the status table have in common.
use async_gateway.Prelude.{◌≤◌, ◌<◌, true, ◌≡◌, refl, none, arith, has_key}
use async_gateway.Errors.{
  ErrorClass, async_gateway_error, class_code, is_subclass, status_by_code, status_code,
}

-- Every class of the package is caught by `except AsyncGatewayError`.
pub is_subclass-root : (c : ErrorClass) → is_subclass c async_gateway_error ≡ true
unfolding is_subclass
is_subclass-root ErrorClass.async_gateway_error = refl
is_subclass-root _ = refl

-- Every class's code stands in the status table, so no class takes the default for unknown codes.
pub has_key-class_code : (c : ErrorClass) → has_key (class_code c) status_by_code ≡ true
unfolding status_by_code class_code has_key
has_key-class_code ErrorClass.async_gateway_error = refl
has_key-class_code _ = refl

-- An error that carries no remote status reports one in 400..599.
pub status_code-InRange : (c : ErrorClass) → (400 ≤ status_code c none) × (status_code c none < 600)
unfolding status_code
status_code-InRange ErrorClass.async_gateway_error = omega arith
status_code-InRange _ = omega arith
