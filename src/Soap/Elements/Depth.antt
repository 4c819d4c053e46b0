-- ===== src/Soap/Elements/Depth.antt =====
-- The loop of `exceeds_depth` (asyncio_gateway/logic/soap_client.py) against the depth of a tree.
use async_gateway.Prelude.{
  ℕ, zero, suc, ◌+◌, ◌≤◌, ◌<◌, ◌≡◌, refl, ap, ◌∙◌, Bool, false, ◌||◌, some, List, [], ◌∷◌, ltb, max,
  arith,
}
use async_gateway.Soap.Elements.{
  Element, element, Elements, nil, cons, extend, descend, exceeds_depth, nodes, nodes_below,
}

-- The number of levels.
unfoldable mutual
  pub levels : Element → ℕ
  levels (element tag text children) = 1 + levels_below children

  pub levels_below : Elements → ℕ
  levels_below nil = 0
  levels_below (cons e es) = max (levels e) (levels_below es)

abbrev waiting : List (Element × ℕ) → ℕ
waiting [] = 0
waiting ((e, d) ∷ stack) = nodes e + waiting stack

-- Some tree of the stack reaches below the limit.
abbrev reaches : ℕ → List (Element × ℕ) → Bool
reaches m [] = false
reaches m ((e, d) ∷ stack) = ltb (m + 1) (d + levels e) || reaches m stack

waiting-extend :
    (es : Elements) (d : ℕ) (stack : List (Element × ℕ))
    → waiting (extend es d stack) ≡ nodes_below es + waiting stack
unfolding nodes_below
waiting-extend nil d stack = omega arith
waiting-extend (cons e es) d stack = omega (arith, waiting-extend es d ((e, d) ∷ stack))

-- The children reach below the limit where the deepest of them does.
reaches-extend :
    (es : Elements) (m d : ℕ) (stack : List (Element × ℕ))
    → d ≤ m + 1
    → reaches m (extend es d stack) ≡ (ltb (m + 1) (d + levels_below es) || reaches m stack)
unfolding levels_below
reaches-extend nil m d stack h = ground arith
reaches-extend (cons e es) m d stack h = ground (arith, reaches-extend es m d ((e, d) ∷ stack))

levels_pos : (e : Element) → 0 < levels e
unfolding levels
levels_pos (element tag text children) = omega arith

descend_lem :
    (fuel m : ℕ) (stack : List (Element × ℕ))
    → waiting stack < fuel
    → descend fuel m stack ≡ some (reaches m stack)
unfolding descend levels nodes
descend_lem zero m stack h = elim h [ ]
descend_lem (suc fuel) m [] h = refl
descend_lem (suc fuel) m ((element tag text children, d) ∷ stack) h = ground (
  arith,
  waiting-extend children (d + 1) stack,
  reaches-extend children m (d + 1) stack,
  descend_lem fuel m (extend children (d + 1) stack),
)

-- The loop ends, and says whether the tree has more levels than the limit.
pub exceeds_depth_lem :
    (root : Element) (max_depth : ℕ)
    → exceeds_depth root max_depth ≡ some (ltb max_depth (levels root))
unfolding exceeds_depth
exceeds_depth_lem root max_depth =
    descend_lem (nodes root + 1) max_depth ((root, 1) ∷ []) (omega arith) ∙ ap some (ground arith)
