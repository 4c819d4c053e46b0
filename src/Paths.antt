-- ===== src/Paths.antt =====
-- The containment of local paths: `resolve_within` and `under` of asyncio_gateway/utils/paths.py.
-- A path is as `pathlib` parses it: whether it is absolute, and its parts, without `.`. The file
-- system, which canonicalises, is a parameter.
pub mod Containment
use async_gateway.Prelude.{
  String, Bool, true, false, not, ◌&&◌, ◌||◌, Option, none, some, List, [], ◌∷◌, ◌++◌, ◌==◌, any,
  if◌then◌else◌,
}

pub record PurePath : Type 0 where
  pub is_absolute : Bool
  pub parts : List String

-- The working directory; `Path.resolve`, as the parts of an absolute path; and whether a part has a
-- null byte.
pub record FileSystem : Type 0 where
  pub cwd : List String
  pub resolve : PurePath → List String
  pub has_null : String → Bool

-- `PathContainmentError`, or the parts of the absolute path to write to.
pub data Placed : Type 0 where
  refused : Placed
  placed : List String → Placed

abbrev pub last : List String → Option String
last [] = none
last (x ∷ []) = some x
last (x ∷ y ∷ xs) = last (y ∷ xs)

abbrev pub drop_last : List String → List String
drop_last [] = []
drop_last (x ∷ []) = []
drop_last (x ∷ y ∷ xs) = x ∷ drop_last (y ∷ xs)

abbrev pub maybe : Option String → List String
maybe none = []
maybe (some x) = x ∷ []

abbrev pub is_parent_step : Option String → Bool
is_parent_step none = false
is_parent_step (some x) = x == ".."

abbrev pub is_nil : List String → Bool
is_nil [] = true
is_nil (x ∷ xs) = false

-- `_names_a_directory`
unfoldable pub names_a_directory : PurePath → Bool
names_a_directory relative = is_nil relative.parts || is_parent_step (last relative.parts)

-- `_contained`: `is_relative_to` compares part by part.
unfoldable pub contained : List String → List String → Bool
contained [] resolved = true
contained (b ∷ base) [] = false
contained (b ∷ base) (r ∷ resolved) = b == r && contained base resolved

abbrev pub has_null_byte : FileSystem → PurePath → Bool
has_null_byte fs p = any fs.has_null p.parts

-- `base / relative`, of a relative path.
abbrev pub joined : PurePath → PurePath → PurePath
joined base relative = record base { parts = base.parts ++ relative.parts }

abbrev pub parent : PurePath → PurePath
parent p = record p { parts = drop_last p.parts }

abbrev pub absolute : FileSystem → PurePath → PurePath
absolute fs p = record {
  is_absolute = true;
  parts = if p.is_absolute then p.parts else fs.cwd ++ p.parts;
}

-- The base itself: its parent is canonical and its name is as given.
abbrev pub itself : FileSystem → PurePath → List String
itself fs base =
    let whole = absolute fs base in fs.resolve (parent whole) ++ maybe (last whole.parts)

abbrev pub checked : List String → List String → List String → Placed
checked base resolved result = if contained base resolved then placed result else refused

-- `resolve_within`
unfoldable pub resolve_within : FileSystem → PurePath → PurePath → Placed
unfolding names_a_directory contained
resolve_within fs base candidate =
    if has_null_byte fs candidate || has_null_byte fs base || candidate.is_absolute
    then refused
    else if is_nil candidate.parts
    then placed (itself fs base)
    else (let combined = joined base candidate in
        if names_a_directory candidate
        then checked (fs.resolve base) (fs.resolve combined) (fs.resolve combined)
        else checked (fs.resolve base) (fs.resolve (parent combined))
            (fs.resolve (parent combined) ++ maybe (last combined.parts)))

-- The rest of `parts` after `root`.
unfoldable pub after_prefix : List String → List String → Option (List String)
after_prefix [] parts = some parts
after_prefix (r ∷ root) [] = none
after_prefix (r ∷ root) (p ∷ parts) =
    let rest = after_prefix root parts in if r == p then rest else none

abbrev same_root : Bool → Bool → Bool
same_root true b = b
same_root false b = not b

abbrev pub placed_tail : FileSystem → PurePath → Option (List String) → Placed
placed_tail fs base none = refused
placed_tail fs base (some tail) =
    resolve_within fs base (record { is_absolute = false; parts = tail })

-- `under`: `relative_to` compares part by part, without the file system.
unfoldable pub under : FileSystem → PurePath → PurePath → Placed
unfolding after_prefix
under fs base path =
    if same_root base.is_absolute path.is_absolute
    then placed_tail fs base (after_prefix base.parts path.parts)
    else refused
