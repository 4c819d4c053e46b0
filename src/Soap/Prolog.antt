-- ===== src/Soap/Prolog.antt =====
-- `scan_prolog` (asyncio_gateway/logic/soap_client.py) over the code points of a text. `is_space` is the
-- language's `str.isspace`. The walk takes fuel; `scan_prolog` gives it one more than the text is long.
pub mod Refusal
pub mod Total
use async_gateway.Prelude.{
  ℕ, zero, suc, ◌+◌, Bool, true, false, not, ◌&&◌, ◌||◌, Option, none, some, List, [], ◌∷◌, length,
  eqb, drop, if◌then◌else◌,
}

-- `startswith`
abbrev pub starts : List ℕ → List ℕ → Bool
starts [] xs = true
starts (p ∷ ps) [] = false
starts (p ∷ ps) (x ∷ xs) = eqb p x && starts ps xs

-- `find`, as the number of characters up to the end of the pattern and what follows it.
unfoldable pub skip_past : List ℕ → List ℕ → Option (ℕ × List ℕ)
skip_past pattern_ [] = none
skip_past pattern_ (x ∷ xs) =
    if starts pattern_ (x ∷ xs)
    then some (length pattern_, drop (length pattern_) (x ∷ xs))
    else (elim (skip_past pattern_ xs) [ none ↦ none | some (n, rest) ↦ some (suc n, rest) ])

abbrev pub instruction_open : List ℕ
instruction_open = b'<' ∷ b'?' ∷ []

abbrev pub instruction_close : List ℕ
instruction_close = b'?' ∷ b'>' ∷ []

abbrev pub comment_open : List ℕ
comment_open = b'<' ∷ b'!' ∷ b'-' ∷ b'-' ∷ []

abbrev pub comment_close : List ℕ
comment_close = b'-' ∷ b'-' ∷ b'>' ∷ []

abbrev pub declaration_open : List ℕ
declaration_open = b'<' ∷ b'!' ∷ []

-- The byte order mark.
abbrev pub mark : ℕ
mark = 0xFEFF

-- The offset of the root element, `-1`, or the `UnsafeXmlError`.
pub data Scan : Type 0 where
  root_at : ℕ → Scan
  no_root : Scan
  unsafe : Scan

module _ (is_space : ℕ → Bool) where
  -- The loop from the cursor, with the text from there on; `none` means that the fuel ran out.
  unfoldable pub walk : ℕ → ℕ → List ℕ → Option Scan
  walk zero cursor xs = none
  walk (suc fuel) cursor [] = some no_root
  walk (suc fuel) cursor (x ∷ xs) =
      let next = walk fuel (cursor + 1) xs in
      let instruction : Option Scan = elim (skip_past instruction_close (drop 2 (x ∷ xs))) [
        | none ↦ some no_root
        | some (n, rest) ↦ walk fuel (cursor + 2 + n) rest
      ] in
      let comment : Option Scan = elim (skip_past comment_close (drop 4 (x ∷ xs))) [
        | none ↦ some no_root
        | some (n, rest) ↦ walk fuel (cursor + 4 + n) rest
      ] in
      if is_space x || eqb x mark
      then next
      else if not (eqb b'<' x)
      then some no_root
      else if starts instruction_open (x ∷ xs)
      then instruction
      else if starts comment_open (x ∷ xs)
      then comment
      else if starts declaration_open (x ∷ xs)
      then some unsafe
      else some (root_at cursor)

  unfoldable pub scan_prolog : List ℕ → Option Scan
  unfolding walk skip_past
  scan_prolog xml_text = walk (length xml_text + 1) 0 xml_text
