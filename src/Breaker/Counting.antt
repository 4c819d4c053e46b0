-- ===== src/Breaker/Counting.antt =====
-- How many consecutive failures open the circuit.
use async_gateway.Prelude.{ℕ, zero, suc, ◌≤◌, ◌<◌, ◌≡◌, refl, arith, ltb, if◌then◌else◌}
use async_gateway.Breaker.{Breaker, closed, is_open, record_failure, record_success}

-- `n` failures one after another, the clock standing at `now`.
abbrev pub failing : ℕ → ℕ → Breaker → Breaker
failing zero now b = b
failing (suc n) now b = record_failure now (failing n now b)

-- After a success, fewer failures than the threshold leave the circuit closed and are counted.
failing-closed :
    (n now : ℕ) (b : Breaker)
    → n < b.maximum_failures
    → failing n now (record_success b) ≡ record b { state = closed; failures = n }
unfolding record_success record_failure
failing-closed zero now b h = refl
failing-closed (suc n) now b h = ground (arith, failing-closed n now b)

-- From a success on, consecutive failures are counted with the circuit closed until their number is
-- the threshold; the failure that reaches it opens the circuit, stamps the clock and clears the count.
failing_lem :
    (n now : ℕ) (b : Breaker)
    → 0 < b.maximum_failures
    → n ≤ b.maximum_failures
    → failing n now (record_success b) ≡ (
        if ltb n b.maximum_failures
        then record b { state = closed; failures = n }
        else record b { state = is_open; failures = 0; opened_at = now })
failing_lem zero now b positive fits = ground (arith, failing-closed 0 now b)
failing_lem (suc n) now b positive fits =
    rw (failing-closed n now b (omega arith)) (unfold record_failure in ground arith)
