-- ===== src/Transfers/Budgets.antt =====
-- What a transfer leaves on the disk (asyncio_gateway/utils/contained_io.py).
use async_gateway.Prelude.{ℕ, ◌+◌, ◌≤◌, ◌≡◌, List, [], ◌∷◌, arith, eqb, Bool-cases, inl, inr}
use async_gateway.Transfers.{TransferBudget, spend, Disk, grow, remove, Block, write, write_blocks}

abbrev pub size_of : Disk → ℕ
size_of [] = 0
size_of ((f, size) ∷ disk) = size + size_of disk

size_of-grow :
    (file count : ℕ) (disk : Disk) → size_of (grow file count disk) ≡ size_of disk + count
unfolding grow
size_of-grow file count [] = omega arith
size_of-grow file count ((f, size) ∷ disk) = elim (Bool-cases (eqb f file)) [
  | inl here ↦ rw here (omega arith)
  | inr other ↦ rw other (omega (arith, size_of-grow file count disk))
]

size_of-remove : (file : ℕ) (disk : Disk) → size_of (remove file disk) ≤ size_of disk
unfolding remove
size_of-remove file [] = omega arith
size_of-remove file ((f, size) ∷ disk) = elim (Bool-cases (eqb f file)) [
  | inl here ↦ rw here (omega (arith, size_of-remove file disk))
  | inr other ↦ rw other (omega (arith, size_of-remove file disk))
]

-- What is on the disk was charged and is within the limit.
abbrev IsCharged : TransferBudget × Disk → Type 0
IsCharged s = (size_of s.1 ≤ s.0.written) × (size_of s.1 ≤ s.0.limit)

write-IsCharged :
    (b : Block) (s : TransferBudget × Disk)
    → IsCharged s
    → IsCharged (write b s).0 × ((write b s).0.0.limit ≡ s.0.limit)
unfolding write spend
write-IsCharged b (budget, disk) h =
    ground (arith, size_of-grow b.file b.count disk, size_of-remove b.file disk)

write_blocks-IsCharged :
    (blocks : List Block) (s : TransferBudget × Disk)
    → IsCharged s
    → size_of (write_blocks blocks s).1 ≤ s.0.limit
write_blocks-IsCharged [] s h = h.1
write_blocks-IsCharged (b ∷ blocks) s h =
    let (charged, same) = write-IsCharged b s h in
    omega (arith, write_blocks-IsCharged blocks (write b s).0 charged, same)

-- After any writes of one transfer, to any number of files, refused ones included, all its files
-- together hold at most the limit.
pub write_blocks-within :
    (limit : ℕ) (blocks : List Block)
    → size_of (write_blocks blocks (record { limit = limit; written = 0 }, [])).1 ≤ limit
write_blocks-within limit blocks =
    write_blocks-IsCharged blocks (record { limit = limit; written = 0 }, [])
      (omega arith, omega arith)
