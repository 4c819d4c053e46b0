-- ===== src/Paths/Containment.antt =====
-- Where a contained path lies (asyncio_gateway/utils/paths.py).
use async_gateway.Prelude.{
  contains, String, true, false, ◌≡◌, ◌⊎◌, inl, inr, Bool-cases, refl, ap, ◌∙◌, sym, Option, none,
  some, List, [], ◌∷◌, ◌++◌, ◌==◌, arith, eq_iff,
}
use async_gateway.Paths.{
  PurePath, FileSystem, placed, last, is_nil, names_a_directory, contained, joined, parent, maybe,
  is_parent_step, resolve_within, after_prefix, placed_tail, under,
}

contained-append :
    (base resolved more : List String)
    → contained base resolved ≡ true
    → contained base (resolved ++ more) ≡ true
unfolding contained
contained-append [] resolved more h = refl
contained-append (b ∷ base) [] more h = cc
contained-append (b ∷ base) (r ∷ resolved) more h =
    ground (arith, contained-append base resolved more)

-- No part is a step to the parent.
abbrev pub IsStraight : List String → Type 0
IsStraight parts = contains parts ".." ≡ false

-- `Path.resolve` gives a path without such steps.
abbrev pub IsCanonical : FileSystem → Type 0
IsCanonical fs = (p : PurePath) → IsStraight (fs.resolve p)

-- Inside the base: it begins with the base's parts, and no part leads up again.
abbrev pub IsInside : List String → List String → Type 0
IsInside base result = (contained base result ≡ true) × IsStraight result

pub IsStraight-maybe :
    (xs : List String) (o : Option String)
    → IsStraight xs
    → is_parent_step o ≡ false
    → IsStraight (xs ++ maybe o)
IsStraight-maybe [] none h k = refl
IsStraight-maybe [] (some x) h k = ground (arith, k)
IsStraight-maybe (x ∷ xs) o h k = ground (arith, h, k, IsStraight-maybe xs o)

last-append : (x : String) (xs ys : List String) → last (ys ++ x ∷ xs) ≡ last (x ∷ xs)
last-append x xs [] = refl
last-append x xs (y ∷ []) = refl
last-append x xs (y ∷ z ∷ ys) = last-append x xs (z ∷ ys)

last_step :
    (base parts : List String)
    → is_nil parts ≡ false
    → is_parent_step (last parts) ≡ false
    → is_parent_step (last (base ++ parts)) ≡ false
last_step base [] h k = cc
last_step base (x ∷ xs) h k = ap is_parent_step (last-append x xs base) ∙ k

resolve_within-IsStraight :
    (fs : FileSystem) (base candidate : PurePath) (result : List String)
    → IsCanonical fs
    → is_nil candidate.parts ≡ false
    → resolve_within fs base candidate ≡ placed result
    → IsStraight result
unfolding resolve_within names_a_directory
resolve_within-IsStraight fs base candidate result canonical some_ h =
    elim (Bool-cases (is_parent_step (last candidate.parts))) [
      | inl up ↦ ground (arith, up, canonical (joined base candidate))
      | inr down ↦
          let straight =
            IsStraight-maybe (fs.resolve (parent (joined base candidate)))
              (last (joined base candidate).parts) (canonical (parent (joined base candidate)))
              (last_step base.parts candidate.parts some_ down) in
          ground (arith, down, straight)
    ]

resolve_within-contained :
    (fs : FileSystem) (base candidate : PurePath) (result : List String)
    → is_nil candidate.parts ≡ false
    → resolve_within fs base candidate ≡ placed result
    → contained (fs.resolve base) result ≡ true
unfolding resolve_within
resolve_within-contained fs base candidate result some_ h = ground (
  arith,
  contained-append (fs.resolve base) (fs.resolve (parent (joined base candidate)))
      (maybe (last (joined base candidate).parts)),
)

after_prefix-append :
    (root parts tail : List String) → after_prefix root parts ≡ some tail → parts ≡ root ++ tail
unfolding after_prefix
after_prefix-append [] parts tail h = cc
after_prefix-append (r ∷ root) [] tail h = cc
after_prefix-append (r ∷ root) (p ∷ parts) tail h = elim (Bool-cases (r == p)) [
  | inl same ↦ ground (arith, same, eq_iff r p, after_prefix-append root parts tail)
  | inr other ↦ ground (arith, other)
]

append-nil : (xs : List String) → xs ++ [] ≡ xs
append-nil [] = refl
append-nil (x ∷ xs) = ap (λ ys. x ∷ ys) (append-nil xs)

placed_tail-contained :
    (fs : FileSystem) (base path : PurePath) (o : Option (List String)) (result : List String)
    → IsCanonical fs
    → after_prefix base.parts path.parts ≡ o
    → placed_tail fs base o ≡ placed result
    → (path.parts ≡ base.parts) ⊎ IsInside (fs.resolve base) result
placed_tail-contained fs base path none result canonical e h = cc
placed_tail-contained fs base path (some []) result canonical e h =
    inl (after_prefix-append base.parts path.parts [] e ∙ append-nil base.parts)
placed_tail-contained fs base path (some (x ∷ xs)) result canonical e h =
    let tail : PurePath = record { is_absolute = false; parts = x ∷ xs } in
    inr (
      resolve_within-contained fs base tail result refl h,
      resolve_within-IsStraight fs base tail result canonical refl h,
    )

-- Where the file system's canonical paths have no step to a parent, a path that a transfer library
-- composed is placed inside the canonical base, whatever the names in it are and wherever links lead,
-- unless it is the base itself: the placed path begins with the base's parts and has no such step.
pub under-contained :
    (fs : FileSystem) (base path : PurePath) (result : List String)
    → IsCanonical fs
    → under fs base path ≡ placed result
    → (path.parts ≡ base.parts) ⊎ IsInside (fs.resolve base) result
unfolding under
under-contained fs base path result canonical h =
    placed_tail-contained fs base path (after_prefix base.parts path.parts) result canonical refl
      (ground arith)

last-some : (x : String) (xs : List String) → (y : String) × (last (x ∷ xs) ≡ some y)
last-some x [] = (x, refl)
last-some x (y ∷ xs) = last-some y xs

last-maybe :
    (xs : List String) (o : Option String) (y : String) → o ≡ some y → last (xs ++ maybe o) ≡ some y
last-maybe xs o y h = rw h (last-append y [] xs)

resolve_within-file :
    (fs : FileSystem) (base candidate : PurePath) (result : List String)
    → names_a_directory candidate ≡ false
    → resolve_within fs base candidate ≡ placed result
    → result
      ≡ fs.resolve (parent (joined base candidate)) ++ maybe (last (joined base candidate).parts)
unfolding resolve_within names_a_directory
resolve_within-file fs base candidate result file h = ground arith

last-file :
    (directory base parts : List String)
    → is_nil parts ≡ false
    → last (directory ++ maybe (last (base ++ parts))) ≡ last parts
last-file directory base [] h = cc
last-file directory base (x ∷ xs) h =
    let (y, e) = last-some x xs in
    last-maybe directory (last (base ++ x ∷ xs)) y (last-append x xs base ∙ e) ∙ sym e

-- Where a candidate names a file, the last component of the placed path is the candidate's own, as it
-- was given: it is not resolved, so a link there is still a link when the file is opened.
pub resolve_within-last :
    (fs : FileSystem) (base candidate : PurePath) (result : List String)
    → names_a_directory candidate ≡ false
    → resolve_within fs base candidate ≡ placed result
    → last result ≡ last candidate.parts
unfolding resolve_within names_a_directory
resolve_within-last fs base candidate result file h =
    ap last (resolve_within-file fs base candidate result file h)
    ∙ last-file (fs.resolve (parent (joined base candidate))) base.parts candidate.parts
        (ground arith)
