-- ===== src/Breaker/Invariant.antt =====
-- The well-formedness of a breaker, kept by every operation.
use async_gateway.Prelude.{ℕ, ◌<◌, ◌≡◌, ◌⊎◌, arith}
use async_gateway.Breaker.{Breaker, allows_execution, record_success, record_failure}

-- The count stays below the threshold. A threshold of 0 opens on the first failure, so its count
-- is 0. (A call that was admitted earlier may fail in an open circuit, and is counted there.)
abbrev pub IsValid : Breaker → Type 0
IsValid b = (b.failures ≡ 0) ⊎ (b.failures < b.maximum_failures)

pub allows_execution-IsValid :
    (now : ℕ) (b : Breaker) → IsValid b → IsValid (allows_execution now b).0
unfolding allows_execution
allows_execution-IsValid now b v = ground arith

pub record_success-IsValid : (b : Breaker) → IsValid (record_success b)
unfolding record_success
record_success-IsValid b = ground arith

pub record_failure-IsValid : (now : ℕ) (b : Breaker) → IsValid b → IsValid (record_failure now b)
unfolding record_failure
record_failure-IsValid now b v = ground arith
