-- ===== src/Soap/Elements.antt =====
-- `Element` trees, as far as asyncio_gateway/logic/soap_client.py reads them, and its check of their
-- depth. A qualified tag is its namespace and its local name.
pub mod Depth
use async_gateway.Prelude.{
  ℕ, zero, suc, ◌+◌, String, Bool, true, false, ◌&&◌, Option, none, some, List, [], ◌∷◌, ltb, ◌==◌,
  if◌then◌else◌,
}

pub record Tag : Type 0 where
  pub namespace : Option String
  pub local : String

mutual
  pub data Element : Type 0 where
    element : Tag → Option String → Elements → Element

  pub data Elements : Type 0 where
    nil : Elements
    cons : Element → Elements → Elements

abbrev pub tag_of : Element → Tag
tag_of (element tag text children) = tag

abbrev pub children_of : Element → Elements
children_of (element tag text children) = children

-- `findtext` gives an empty text for an element without one.
abbrev pub text_of : Element → String
text_of (element tag none children) = ""
text_of (element tag (some s) children) = s

abbrev pub same_namespace : Option String → Option String → Bool
same_namespace none none = true
same_namespace (some a) (some b) = a == b
same_namespace _ _ = false

abbrev pub same_tag : Tag → Tag → Bool
same_tag a b = same_namespace a.namespace b.namespace && a.local == b.local

-- `find`: the first child of the tag.
unfoldable pub find : Tag → Elements → Option Element
find tag nil = none
find tag (cons e es) = if same_tag (tag_of e) tag then some e else find tag es

-- `findtext`
unfoldable pub findtext : Tag → Elements → Option String
unfolding find
findtext tag es = elim (find tag es) [ none ↦ none | some e ↦ some (text_of e) ]

-- `stack.extend(...)` at the end of the stack that is popped, which is the head of the list here.
abbrev pub extend : Elements → ℕ → List (Element × ℕ) → List (Element × ℕ)
extend nil depth stack = stack
extend (cons e es) depth stack = extend es depth ((e, depth) ∷ stack)

-- The loop of `exceeds_depth`; `none` means that the fuel ran out.
unfoldable pub descend : ℕ → ℕ → List (Element × ℕ) → Option Bool
descend zero max_depth stack = none
descend (suc fuel) max_depth [] = some false
descend (suc fuel) max_depth ((node, depth) ∷ stack) =
    let rest = descend fuel max_depth (extend (children_of node) (depth + 1) stack) in
    if ltb max_depth depth then some true else rest

unfoldable mutual
  pub nodes : Element → ℕ
  nodes (element tag text children) = 1 + nodes_below children

  pub nodes_below : Elements → ℕ
  nodes_below nil = 0
  nodes_below (cons e es) = nodes e + nodes_below es

-- `exceeds_depth`, with fuel for each node of the tree and the end.
unfoldable pub exceeds_depth : Element → ℕ → Option Bool
unfolding descend nodes
exceeds_depth root max_depth = descend (nodes root + 1) max_depth ((root, 1) ∷ [])
