-- ===== src/Tests/Paths.antt =====
-- asyncio_gateway/utils/paths.py at concrete inputs.
use async_gateway.Prelude.{
  some, ◌++◌, arith, Bool-cases, inl, inr, String, ◌≡◌, ◌⊎◌, refl, true, false, List, [], ◌∷◌, ◌==◌,
  if◌then◌else◌,
}
use async_gateway.Paths.{
  PurePath, FileSystem, placed, refused, under, resolve_within, names_a_directory, drop_last,
}
use async_gateway.Paths.Containment.{IsStraight, IsStraight-maybe, IsInside, under-contained}

-- A file system with a link, `downloads` to `srv`.
abbrev links : List String → List String
links [] = []
links (x ∷ xs) = if x == "downloads" then "srv" ∷ xs else x ∷ xs

-- The parts so far, and those to come.
abbrev climbed : List String → List String → List String
climbed before [] = before
climbed before (x ∷ xs) =
    let up = climbed (drop_last before) xs in
    let down = climbed (before ++ x ∷ []) xs in if x == ".." then up else down

drop_last-IsStraight : (xs : List String) → IsStraight xs → IsStraight (drop_last xs)
drop_last-IsStraight [] h = refl
drop_last-IsStraight (x ∷ []) h = refl
drop_last-IsStraight (x ∷ y ∷ xs) h = ground (arith, h, drop_last-IsStraight (y ∷ xs))

climbed-IsStraight : (before xs : List String) → IsStraight before → IsStraight (climbed before xs)
climbed-IsStraight before [] h = h
climbed-IsStraight before (x ∷ xs) h = elim (Bool-cases (x == "..")) [
  | inl up ↦ rw up (climbed-IsStraight (drop_last before) xs (drop_last-IsStraight before h))
  | inr down ↦
      rw down (climbed-IsStraight (before ++ x ∷ []) xs (IsStraight-maybe before (some x) h down))
]

abbrev disk : FileSystem
disk = record { cwd = []; resolve = λ p. climbed [] (links p.parts); has_null = λ s. false }

abbrev base : PurePath
base = record { is_absolute = true; parts = "downloads" ∷ [] }

abbrev inside : PurePath
inside = record { is_absolute = true; parts = "downloads" ∷ "a" ∷ "b" ∷ [] }

placed_inside : under disk base inside ≡ placed ("srv" ∷ "a" ∷ "b" ∷ [])
unfolding under resolve_within
placed_inside = refl

outside_refused :
    under disk base (record { is_absolute = true; parts = "etc" ∷ "b" ∷ [] }) ≡ refused
unfolding under
outside_refused = refl

under-contained_example :
    (inside.parts ≡ base.parts) ⊎ IsInside (disk.resolve base) ("srv" ∷ "a" ∷ "b" ∷ [])
under-contained_example =
    under-contained disk base inside ("srv" ∷ "a" ∷ "b" ∷ [])
      (λ p. climbed-IsStraight [] (links p.parts) refl) placed_inside

-- A name that the server gave, which leads out of the base.
climbing_refused :
    under disk base (record { is_absolute = true; parts = "downloads" ∷ ".." ∷ [] }) ≡ refused
unfolding under resolve_within
climbing_refused = refl

abbrev entry : PurePath
entry = record { is_absolute = false; parts = "a" ∷ "b" ∷ [] }

entry_placed : resolve_within disk base entry ≡ placed ("srv" ∷ "a" ∷ "b" ∷ [])
unfolding resolve_within
entry_placed = refl

entry_is_file : names_a_directory entry ≡ false
unfolding names_a_directory
entry_is_file = refl
