-- ===== src/Prelude/Assoc.antt =====
-- Python's `dict` with text keys, in insertion order: an association list without repeated keys.
use Prim.Native.String.{String}
use mathlib.Core.Path.{◌≡◌, refl}
use mathlib.Core.Bool.{Bool, true}
use mathlib.Core.Option.{Option, none, some}
use mathlib.Core.List.{List, [], ◌∷◌}
use native.Mathlib.Omega.{arith}
use text.Mathlib.Text.{◌==◌}
use text.Mathlib.TextEquality.{eq_iff}
use text.Mathlib.TextPositions.{eq_refl}
use async_gateway.Prelude.Tests.{if◌then◌else◌, is_some}

abbrev pub Dict {ℓ} : Type ℓ → Type ℓ
Dict V = List (String × V)

module _ {ℓ} {V : Type ℓ} where
  -- `d.get(k)`
  unfoldable pub lookup : String → Dict V → Option V
  lookup k [] = none
  lookup k ((j, v) ∷ d) = if j == k then some v else lookup k d

  -- `k in d`
  unfoldable pub has_key : String → Dict V → Bool
  unfolding lookup
  has_key k d = is_some (lookup k d)

  -- `d[k] = v`: a key that is there keeps its place.
  unfoldable pub put : String → V → Dict V → Dict V
  put k v [] = (k, v) ∷ []
  put k v ((j, w) ∷ d) = if j == k then (j, v) ∷ d else (j, w) ∷ put k v d

  abbrev pub keys : Dict V → List String
  keys [] = []
  keys ((k, v) ∷ d) = k ∷ keys d

  pub lookup-put :
      (k j : String) (v : V) (d : Dict V)
      → lookup j (put k v d) ≡ (if k == j then some v else lookup j d)
  unfolding lookup put
  lookup-put k j v [] = refl
  lookup-put k j v ((i, w) ∷ d) =
      ground (arith, eq_iff k j, eq_iff i k, eq_iff i j, lookup-put k j v d)

  pub lookup-put_self : (k : String) (v : V) (d : Dict V) → lookup k (put k v d) ≡ some v
  lookup-put_self k v d = simp (lookup-put, eq_refl)

  -- A write adds its key and removes none.
  pub has_key-put :
      (k j : String) (v : V) (d : Dict V)
      → has_key j (put k v d) ≡ (if k == j then true else has_key j d)
  unfolding has_key
  has_key-put k j v d = ground (arith, lookup-put k j v d)
