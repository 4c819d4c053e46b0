-- ===== src/Errors/Chain.antt =====
-- `_cause_chain` and `unwrap_cause` of asyncio_gateway/utils/exceptions.py.
-- Exceptions are objects with an identity and may point at one another in a cycle: a store maps each
-- identity to its object. The walk's bound is the source's `max_depth`, so it needs no fuel.
pub mod Bounds
pub mod Messages
use async_gateway.Prelude.{
  ℕ, zero, suc, String, Bool, true, false, Option, none, some, List, [], ◌∷◌, ◌==◌, eqb, any,
  if◌then◌else◌,
}
use Prim.Native.String.{◌++◌}

pub record Exception : Type 0 where
  pub type_name : String
  -- `str(exc)`
  pub text : String
  pub cause : Option ℕ
  pub context : Option ℕ

abbrev pub Store : Type 0
Store = ℕ → Exception

abbrev pub cause_chain_max_depth : ℕ
cause_chain_max_depth = 10

abbrev pub seen_before : List ℕ → ℕ → Bool
seen_before seen e = any (λ s. eqb s e) seen

-- `link.__cause__ or link.__context__`
pub following : Exception → Option ℕ
following e = elim e.cause [ some c ↦ some c | none ↦ e.context ]

-- The link that the loop goes on to: `none` is its `break`.
pub next_link : Store → List ℕ → ℕ → Option ℕ
unfolding following
next_link store seen link = elim (following (store link)) [
  | none ↦ none
  | some e ↦ if seen_before seen e then none else some e
]

-- The `for _ in range(max_depth)` loop: what it appends after `link`.
pub walk : ℕ → Store → List ℕ → ℕ → List ℕ
walk zero store seen link = []
walk (suc n) store seen link = elim (next_link store seen link) [
  | none ↦ []
  | some e ↦ e ∷ walk n store (e ∷ seen) e
]

unfoldable pub cause_chain : Store → ℕ → ℕ → List ℕ
unfolding walk next_link
cause_chain store exc max_depth = exc ∷ walk max_depth store (exc ∷ []) exc

-- The last link with a message.
pub deepest : Store → Option ℕ → List ℕ → Option ℕ
deepest store found [] = found
deepest store found (e ∷ es) = deepest store (if (store e).text == "" then found else some e) es

-- Python's `a or b` on texts.
abbrev pub text_or : String → String → String
text_or a b = if a == "" then b else a

abbrev pub described : Exception → Exception → String
described head tail = head.type_name ++ (": " ++ tail.text)

-- `redact` is `redact_text` with the caller's extra names applied.
pub describe : (String → String) → Store → ℕ → Option ℕ → String × Option String
describe redact store exc none = (redact (text_or (store exc).text (store exc).type_name), none)
describe redact store exc (some d) = (
  redact (text_or (store exc).text (described (store exc) (store d))),
  some (redact (described (store d) (store d))),
)

abbrev pub tail_of : List ℕ → List ℕ
tail_of [] = []
tail_of (x ∷ xs) = xs

unfoldable pub unwrap_cause : (String → String) → Store → ℕ → ℕ → String × Option String
unfolding cause_chain deepest describe
unwrap_cause redact store exc max_depth =
    describe redact store exc (deepest store none (tail_of (cause_chain store exc max_depth)))
