-- ===== src/Values/Floats.antt =====
-- Python's `float`: a finite value is `mantissa / 2 ^ scale` with its sign, as an IEEE double is.
use async_gateway.Prelude.{ℕ, ◌/◌, ◌%◌, ◌^◌, Bool, true, false, ◌&&◌, eqb, not}

pub data Float : Type 0 where
  finite : (negative : Bool) (mantissa scale : ℕ) → Float
  infinite : (negative : Bool) → Float
  nan : Float

abbrev pub whole : ℕ → Float
whole n = finite false n 0

-- `x < 0.0`; minus zero is not below zero.
unfoldable pub is_negative : Float → Bool
is_negative (finite negative m k) = negative && not (eqb m 0)
is_negative (infinite negative) = negative
is_negative nan = false

abbrev pub is_finite : Float → Bool
is_finite (finite negative m k) = true
is_finite _ = false

-- `x == int(x)`, for a finite x.
unfoldable pub is_whole : ℕ → ℕ → Bool
is_whole m k = eqb (m % 2 ^ k) 0

-- `int(x)`, for a finite x that is not negative.
unfoldable pub floor : ℕ → ℕ → ℕ
floor m k = m / 2 ^ k
