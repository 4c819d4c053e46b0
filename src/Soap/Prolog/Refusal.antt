-- ===== src/Soap/Prolog/Refusal.antt =====
-- What `scan_prolog` of asyncio_gateway/logic/soap_client.py does behind any noise of a prolog.
use async_gateway.Prelude.{
  ℕ, drop, zero, suc, ◌+◌, ◌≤◌, ◌<◌, ◌≡◌, refl, ap, Bool, true, false, not, ◌&&◌, ◌||◌, some, List,
  [], ◌∷◌, ◌++◌, length, length-append, eqb, arith, All, Bool-cases, inl, inr, ◌∙◌,
}
use mathlib.Core.List.{append_assoc}
use async_gateway.Soap.Prolog.{
  starts, skip_past, instruction_close, comment_close, mark, root_at, unsafe, walk, scan_prolog,
}

-- What may stand before the root element: white space or the mark, an instruction, a comment.
pub data Noise : Type 0 where
  blank : ℕ → Noise
  instruction comment : List ℕ → Noise

abbrev pub written : Noise → List ℕ
written (blank c) = c ∷ []
written (instruction body) = b'<' ∷ b'?' ∷ (body ++ instruction_close)
written (comment body) = b'<' ∷ b'!' ∷ b'-' ∷ b'-' ∷ (body ++ comment_close)

abbrev pub all_written : List Noise → List ℕ
all_written [] = []
all_written (n ∷ ns) = written n ++ all_written ns

-- The pattern that ends the body does not occur before its end.
abbrev pub ends_first : List ℕ → List ℕ → Bool
ends_first pattern_ [] = true
ends_first pattern_ (x ∷ xs) =
    not (starts pattern_ (x ∷ (xs ++ pattern_))) && ends_first pattern_ xs

abbrev pub IsNoise : (ℕ → Bool) → Noise → Type 0
IsNoise is_space (blank c) = (is_space c || eqb c mark) ≡ true
IsNoise is_space (instruction body) = ends_first instruction_close body ≡ true
IsNoise is_space (comment body) = ends_first comment_close body ≡ true

-- A test on a prefix does not look further than the pattern is long.
starts-append : (p xs ys : List ℕ) → length p ≤ length xs → starts p (xs ++ ys) ≡ starts p xs
starts-append [] xs ys h = refl
starts-append (p ∷ ps) [] ys h = absurd (omega arith)
starts-append (p ∷ ps) (x ∷ xs) ys h = ap (λ b. eqb p x && b) (starts-append ps xs ys (omega arith))

starts_self : (p ys : List ℕ) → starts p (p ++ ys) ≡ true
starts_self [] ys = refl
starts_self (p ∷ ps) ys = ground (arith, starts_self ps ys)

drop_self : (p ys : List ℕ) → drop (length p) (p ++ ys) ≡ ys
drop_self [] ys = refl
drop_self (p ∷ ps) ys = drop_self ps ys

skip_past_self :
    (p : ℕ) (ps body ys : List ℕ)
    → ends_first (p ∷ ps) body ≡ true
    → skip_past (p ∷ ps) ((body ++ (p ∷ ps)) ++ ys) ≡ some (length body + length (p ∷ ps), ys)
unfolding skip_past
skip_past_self p ps [] ys h = ground (arith, starts_self ps ys, drop_self ps ys)
skip_past_self p ps (x ∷ xs) ys h =
    let long = length-append xs (p ∷ ps) in
    let prefix = starts-append (p ∷ ps) (x ∷ (xs ++ (p ∷ ps))) ys (omega arith) in
    elim (Bool-cases (starts (p ∷ ps) (x ∷ (xs ++ (p ∷ ps))))) [
      | inl found ↦ ground (arith, found)
      | inr none_yet ↦
          rw (prefix, none_yet, skip_past_self p ps xs ys (ground (arith, none_yet)))
            (ap (λ (n : ℕ). some (n, ys)) (omega arith))
    ]

written-pos : (n : Noise) → 0 < length (written n)
written-pos (blank c) = omega arith
written-pos (instruction body) = omega arith
written-pos (comment body) = omega arith

module _ (is_space : ℕ → Bool) (angle : is_space b'<' ≡ false) where
  -- One piece of noise is walked over.
  walk-noise :
      (fuel cursor : ℕ) (n : Noise) (ys : List ℕ)
      → IsNoise is_space n
      → walk is_space (suc fuel) cursor (written n ++ ys)
        ≡ walk is_space fuel (cursor + length (written n)) ys
  unfolding walk
  walk-noise fuel cursor (blank c) ys h = rw h
  walk-noise fuel cursor (instruction body) ys h =
      rw (angle, skip_past_self b'?' (b'>' ∷ []) body ys h)
        (ap (λ (n : ℕ). walk is_space fuel n ys)
          (omega (arith, length-append body instruction_close)))
  walk-noise fuel cursor (comment body) ys h =
      rw (angle, skip_past_self b'-' (b'-' ∷ b'>' ∷ []) body ys h)
        (ap (λ (n : ℕ). walk is_space fuel n ys) (omega (arith, length-append body comment_close)))

  -- All of it is.
  walk-noises :
      (ns : List Noise) (fuel cursor : ℕ) (ys : List ℕ)
      → All (IsNoise is_space) ns
      → length (all_written ns) + length ys < fuel
      → (left : ℕ) × (length ys < left)
        × (walk is_space fuel cursor (all_written ns ++ ys)
            ≡ walk is_space left (cursor + length (all_written ns)) ys)
  walk-noises [] fuel cursor ys h enough =
      (fuel, omega arith, ap (λ (n : ℕ). walk is_space fuel n ys) (omega arith))
  walk-noises (n ∷ ns) zero cursor ys h enough = elim enough [ ]
  walk-noises (n ∷ ns) (suc fuel) cursor ys (h, hs) enough =
      let (left, more, same) =
        walk-noises ns fuel (cursor + length (written n)) ys hs
          (omega (arith, length-append (written n) (all_written ns), written-pos n)) in
      (
        left,
        more,
        rw
            (
              append_assoc (written n) (all_written ns) ys,
              walk-noise fuel cursor n (all_written ns ++ ys) h,
            )
            (same
              ∙ ap (λ (k : ℕ). walk is_space left k ys)
                  (omega (arith, length-append (written n) (all_written ns)))),
      )

  -- From the cursor on, a text that is no noise.
  walk-unsafe :
      (fuel cursor : ℕ) (rest : List ℕ)
      → 0 < fuel
      → starts (b'-' ∷ b'-' ∷ []) rest ≡ false
      → walk is_space fuel cursor (b'<' ∷ b'!' ∷ rest) ≡ some unsafe
  unfolding walk
  walk-unsafe zero cursor rest pos h = elim pos [ ]
  walk-unsafe (suc fuel) cursor rest pos h = rw (angle, h)

  walk-root :
      (fuel cursor x : ℕ) (rest : List ℕ)
      → 0 < fuel
      → eqb x b'!' ≡ false
      → eqb x b'?' ≡ false
      → walk is_space fuel cursor (b'<' ∷ x ∷ rest) ≡ some (root_at cursor)
  unfolding walk
  walk-root zero cursor x rest pos h k = elim pos [ ]
  walk-root (suc fuel) cursor x rest pos h k = ground (arith, angle)

-- Behind any noise of a prolog, a declaration that is no comment is refused: so a `DOCTYPE` is, in
-- whatever letters, and however long the noise before it is.
pub scan_prolog-unsafe :
    (is_space : ℕ → Bool) (ns : List Noise) (rest : List ℕ)
    → is_space b'<' ≡ false
    → All (IsNoise is_space) ns
    → starts (b'-' ∷ b'-' ∷ []) rest ≡ false
    → scan_prolog is_space (all_written ns ++ b'<' ∷ b'!' ∷ rest) ≡ some unsafe
unfolding scan_prolog
scan_prolog-unsafe is_space ns rest angle h other =
    let text = b'<' ∷ b'!' ∷ rest in
    let (left, more, same) =
      walk-noises is_space angle ns (length (all_written ns ++ text) + 1) 0 text h
        (omega (arith, length-append (all_written ns) text)) in
    same ∙ walk-unsafe is_space angle left (0 + length (all_written ns)) rest (omega arith) other

-- Where the noise is followed by a tag, the scan gives the offset of the tag.
pub scan_prolog-root :
    (is_space : ℕ → Bool) (ns : List Noise) (x : ℕ) (rest : List ℕ)
    → is_space b'<' ≡ false
    → All (IsNoise is_space) ns
    → eqb x b'!' ≡ false
    → eqb x b'?' ≡ false
    → scan_prolog is_space (all_written ns ++ b'<' ∷ x ∷ rest)
      ≡ some (root_at (length (all_written ns)))
unfolding scan_prolog
scan_prolog-root is_space ns x rest angle h other instr =
    let text = b'<' ∷ x ∷ rest in
    let (left, more, same) =
      walk-noises is_space angle ns (length (all_written ns ++ text) + 1) 0 text h
        (omega (arith, length-append (all_written ns) text)) in
    same
    ∙ walk-root is_space angle left (0 + length (all_written ns)) x rest (omega arith) other instr
    ∙ ap (λ (n : ℕ). some (root_at n)) (omega arith)
