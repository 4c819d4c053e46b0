-- ===== src/Tests/Transfers.antt =====
-- The byte caps of asyncio_gateway/utils/http_file_config.py and asyncio_gateway/utils/contained_io.py
-- at concrete inputs.
use async_gateway.Transfers.{write}
use async_gateway.Prelude.{
  ℕ, ◌≤◌, ◌≡◌, refl, false, none, some, Option, String, List, [], ◌∷◌, ◌==◌, if◌then◌else◌, Dict,
}
use async_gateway.Prelude.Int.{ℤ, pos}
use async_gateway.Transfers.{
  guard_declared_length, declared, iter_capped, read_bytes, Block, write_blocks,
}
use async_gateway.Transfers.Budgets.{size_of, write_blocks-within}

abbrev parse : String → Option ℤ
parse s = if s == "3" then some (pos 3) else if s == "9" then some (pos 9) else none

-- A small length before a large one, and one that is no number.
abbrev headers : Dict String
headers = ("content-length", "3") ∷ ("content-length", "x") ∷ ("content-length", "9") ∷ []

hidden_length : guard_declared_length (λ s. s) parse headers 5 ≡ some (declared (pos 9) 5)
unfolding guard_declared_length
hidden_length = refl

abbrev body : List (List ℕ)
body = (1 ∷ 2 ∷ []) ∷ (3 ∷ 4 ∷ []) ∷ (5 ∷ []) ∷ []

crossing_chunk : iter_capped 3 0 body ≡ ((1 ∷ 2 ∷ []) ∷ [], some (read_bytes 4 3))
unfolding iter_capped
crossing_chunk = refl

-- Two files that fit, a block that does not, and one more for the first file.
abbrev blocks : List Block
blocks =
    record { file = 0; count = 4; refused = false }
    ∷ record { file = 1; count = 5; refused = false }
    ∷ record { file = 1; count = 3; refused = false }
    ∷ record { file = 0; count = 1; refused = false }
    ∷ []

nothing_left : (write_blocks blocks (record { limit = 10; written = 0 }, [])).1 ≡ []
unfolding write
nothing_left = refl

write_blocks-within_example :
    size_of (write_blocks blocks (record { limit = 10; written = 0 }, [])).1 ≤ 10
write_blocks-within_example = write_blocks-within 10 blocks
