-- ===== src/Transfers.antt =====
-- The byte caps of transfers: `guard_declared_length` and `iter_capped` of
-- asyncio_gateway/utils/http_file_config.py, and the budget that the writes of one FTP or SFTP
-- transfer share (`TransferBudget` and `ContainedPathIO.write` of
-- asyncio_gateway/utils/contained_io.py).
-- A byte is a number; a block is known by its size where only that is used.
pub mod Caps
pub mod Budgets
use async_gateway.Prelude.{
  ℕ, ◌+◌, String, Bool, true, false, Option, none, some, List, [], ◌∷◌, ◌==◌, Dict, ltb, eqb,
  length, if◌then◌else◌,
}
use async_gateway.Prelude.Int.{ℤ, pos, leb_ℤ}

-- `ResponseTooLargeError`, with the bytes that were read or declared and the cap.
pub data TooLarge : Type 0 where
  declared : ℤ → ℕ → TooLarge
  read_bytes : ℕ → ℕ → TooLarge

-- `response_too_large`
abbrev pub response_too_large : ℕ → ℕ → TooLarge
response_too_large n maximum = read_bytes n maximum

abbrev pub larger : Option ℤ → ℤ → ℤ
larger none d = d
larger (some l) d = if leb_ℤ l d then d else l

-- The longest declared length so far and a header; `parse` is the language's `int` of a text.
module _ (lower : String → String) (parse : String → Option ℤ) where
  -- What a header declares, if it declares a length.
  abbrev pub declared_by : String × String → Option ℤ
  declared_by (name, value) = if lower name == "content-length" then parse value else none

  abbrev pub longest_of : Option ℤ → Option ℤ → Option ℤ
  longest_of longest none = longest
  longest_of longest (some d) = some (larger longest d)

  unfoldable pub longest : Option ℤ → Dict String → Option ℤ
  longest so_far [] = so_far
  longest so_far (h ∷ headers) = longest (longest_of so_far (declared_by h)) headers

  abbrev pub over : ℕ → Option ℤ → Option TooLarge
  over maximum none = none
  over maximum (some d) = if leb_ℤ d (pos maximum) then none else some (declared d maximum)

  -- `guard_declared_length`
  unfoldable pub guard_declared_length : Dict String → ℕ → Option TooLarge
  unfolding longest
  guard_declared_length headers maximum = over maximum (longest none headers)

-- The chunks that are yielded, and the error that ends them.
abbrev pub Read : Type 0
Read = List (List ℕ) × Option TooLarge

abbrev pub yielding : List ℕ → Read → Read
yielding chunk (chunks, e) = (chunk ∷ chunks, e)

-- `iter_capped`, when `total` bytes have been read.
unfoldable pub iter_capped : ℕ → ℕ → List (List ℕ) → Read
iter_capped maximum total [] = ([], none)
iter_capped maximum total (chunk ∷ chunks) =
    let rest = iter_capped maximum (total + length chunk) chunks in
    if ltb maximum (total + length chunk)
    then ([], some (response_too_large (total + length chunk) maximum))
    else yielding chunk rest

-- `TransferBudget`
pub record TransferBudget : Type 0 where
  pub limit : ℕ
  pub written : ℕ

-- `TransferBudget.spend`: the budget afterwards, and the refusal.
unfoldable pub spend : ℕ → TransferBudget → TransferBudget × Option TooLarge
spend count b =
    let b' : TransferBudget = record b { written = b.written + count } in
    (b', if ltb b'.limit b'.written then some (response_too_large b'.written b'.limit) else none)

-- The files of the transfer on the disk, with their sizes.
abbrev pub Disk : Type 0
Disk = List (ℕ × ℕ)

unfoldable pub grow : ℕ → ℕ → Disk → Disk
grow file count [] = (file, count) ∷ []
grow file count ((f, size) ∷ disk) =
    if eqb f file then (f, size + count) ∷ disk else (f, size) ∷ grow file count disk

unfoldable pub remove : ℕ → Disk → Disk
remove file [] = []
remove file ((f, size) ∷ disk) =
    let rest = remove file disk in if eqb f file then rest else (f, size) ∷ rest

-- One block for one file; `refused` says that the file system refuses it.
pub record Block : Type 0 where
  pub file : ℕ
  pub count : ℕ
  pub refused : Bool

-- What a failed `write` raises.
pub data WriteFailure : Type 0 where
  too_large : TooLarge → WriteFailure
  local_write : WriteFailure

abbrev written_or_not : Block → Disk → Option TooLarge → Disk × Option WriteFailure
written_or_not b disk (some e) = (remove b.file disk, some (too_large e))
written_or_not b disk none =
    if b.refused then (remove b.file disk, some local_write) else (grow b.file b.count disk, none)

-- `ContainedPathIO.write`: the block is charged before it is written, and a failure removes the file.
unfoldable pub write : Block → TransferBudget × Disk → (TransferBudget × Disk) × Option WriteFailure
unfolding spend grow remove
write block (budget, disk) =
    let (budget', refusal) = spend block.count budget in
    let (disk', failure) = written_or_not block disk refusal in ((budget', disk'), failure)

-- Any writes of one transfer, of any of its files, the failed ones included.
abbrev pub write_blocks : List Block → TransferBudget × Disk → TransferBudget × Disk
write_blocks [] s = s
write_blocks (b ∷ blocks) s = write_blocks blocks (write b s).0
