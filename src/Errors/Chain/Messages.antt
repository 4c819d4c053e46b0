-- ===== src/Errors/Chain/Messages.antt =====
-- What `unwrap_cause` reports.
use text.Mathlib.TextLemmas.{append-eq-nil_iff}
use async_gateway.Prelude.{
  ℕ, String, ◌≡◌, ◌≢◌, refl, inl, inr, Bool-cases, Option, none, some, List, [], ◌∷◌, ◌++◌, ◌==◌,
  arith, eq_iff, All, if◌then◌else◌,
}
use async_gateway.Errors.Chain.{
  Exception, Store, cause_chain, deepest, text_or, described, describe, tail_of, unwrap_cause,
}

text_or-ne-nil : (a b : String) → b ≢ "" → text_or a b ≢ ""
text_or-ne-nil a b h = elim (Bool-cases (a == "")) [
  | inl empty ↦ rw empty h
  | inr full ↦ rw full (λ e. ground (arith, eq_iff a ""))
]

described-ne-nil : (head tail : Exception) → head.type_name ≢ "" → described head tail ≢ ""
described-ne-nil head tail h e = h (append-eq-nil_iff.0 e).0

describe-ne-nil :
    (redact : String → String) (store : Store) (exc : ℕ) (found : Option ℕ)
    → ((s : String) → s ≢ "" → redact s ≢ "")
    → (store exc).type_name ≢ ""
    → (describe redact store exc found).0 ≢ ""
unfolding describe
describe-ne-nil redact store exc none keeps named =
    keeps _ (text_or-ne-nil (store exc).text (store exc).type_name named)
describe-ne-nil redact store exc (some d) keeps named = keeps _ (
    text_or-ne-nil (store exc).text (described (store exc) (store d))
      (described-ne-nil (store exc) (store d) named))

-- The message is never empty, whatever the exception's own text and its chain are, if class names
-- are not empty and redaction empties no text.
pub unwrap_cause-ne-nil :
    (redact : String → String) (store : Store) (exc max_depth : ℕ)
    → ((s : String) → s ≢ "" → redact s ≢ "")
    → (store exc).type_name ≢ ""
    → (unwrap_cause redact store exc max_depth).0 ≢ ""
unfolding unwrap_cause
unwrap_cause-ne-nil redact store exc max_depth keeps named =
    describe-ne-nil redact store exc _ keeps named

abbrev pub IsSilent : Store → List ℕ → Type 0
IsSilent store es = All (λ e. (store e).text ≡ "") es

deepest-IsSilent :
    (store : Store) (found : Option ℕ) (es : List ℕ)
    → IsSilent store es
    → deepest store found es ≡ found
unfolding deepest
deepest-IsSilent store found [] h = refl
deepest-IsSilent store found (e ∷ es) (h, hs) =
    rw ((eq_iff (store e).text "").1 h, deepest) (deepest-IsSilent store found es hs)

deepest-last :
    (store : Store) (found : Option ℕ) (before : List ℕ) (d : ℕ) (after : List ℕ)
    → (store d).text ≢ ""
    → IsSilent store after
    → deepest store found (before ++ d ∷ after) ≡ some d
unfolding deepest
deepest-last store found [] d after speaks silent = elim (Bool-cases ((store d).text == "")) [
  | inl empty ↦ absurd (speaks ((eq_iff (store d).text "").0 empty))
  | inr full ↦ rw (full, deepest) (deepest-IsSilent store (some d) after silent)
]
deepest-last store found (e ∷ before) d after speaks silent =
    deepest-last store (if (store e).text == "" then found else some e) before d after speaks silent

-- No cause is reported when no further link of the chain has a text.
pub unwrap_cause-IsSilent :
    (redact : String → String) (store : Store) (exc max_depth : ℕ)
    → IsSilent store (tail_of (cause_chain store exc max_depth))
    → (unwrap_cause redact store exc max_depth).1 ≡ none
unfolding unwrap_cause
unwrap_cause-IsSilent redact store exc max_depth silent = rw (deepest-IsSilent store none _ silent)

-- The reported cause is that of the last further link that has a text, led by its class name and
-- redacted.
pub unwrap_cause-deepest :
    (redact : String → String) (store : Store) (exc max_depth : ℕ) (before : List ℕ) (d : ℕ)
    (after : List ℕ)
    → tail_of (cause_chain store exc max_depth) ≡ before ++ d ∷ after
    → (store d).text ≢ ""
    → IsSilent store after
    → (unwrap_cause redact store exc max_depth).1 ≡ some (redact (described (store d) (store d)))
unfolding unwrap_cause
unwrap_cause-deepest redact store exc max_depth before d after split speaks silent =
    rw split (rw (deepest-last store none before d after speaks silent))
