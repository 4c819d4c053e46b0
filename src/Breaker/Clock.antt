-- ===== src/Breaker/Clock.antt =====
-- Durations on the injected clock.
use async_gateway.Prelude.{ℕ, ◌+◌, ◌*◌, ◌^◌, Bool, true, false, ltb, not}
use async_gateway.Values.Floats.{Float, finite, infinite, nan}

abbrev pub nanoseconds : ℕ
nanoseconds = 1000000000

-- `clock() - opened_at < limit`, for readings in nanoseconds. The subtraction is moved to the other
-- side, so a clock that goes back is compared as the source compares it.
unfoldable pub elapsed_below : (now opened_at : ℕ) → (limit : Float) → Bool
elapsed_below now opened_at (finite false m k) =
    ltb (now * 2 ^ k) (opened_at * 2 ^ k + m * nanoseconds)
elapsed_below now opened_at (finite true m k) =
    ltb (now * 2 ^ k + m * nanoseconds) (opened_at * 2 ^ k)
elapsed_below now opened_at (infinite negative) = not negative
elapsed_below now opened_at nan = false
