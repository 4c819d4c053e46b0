-- ===== src/Registry/Ordered.antt =====
-- The operations of `OrderedDict` that the registry uses, on a list of entries in order.
use async_gateway.Prelude.{
  ℕ, suc, Bool, Option, none, some, List, [], ◌∷◌, ◌++◌, length, ltb, if◌then◌else◌,
}

-- `while len(d) > maximum: d.popitem(last=False)`
unfoldable pub evict {ℓ} : {E : Type ℓ} → ℕ → List E → List E
evict maximum [] = []
evict maximum (e ∷ es) =
    let rest = evict maximum es in if ltb maximum (suc (length es)) then rest else e ∷ es

module _ {ℓ} {K : Type ℓ} (same : K → K → Bool) where
  -- `d.get(key)`
  unfoldable pub find {κ} : {V : Type κ} → K → List (K × V) → Option V
  find key [] = none
  find key ((k, v) ∷ es) = if same k key then some v else find key es

  -- The other entries.
  unfoldable pub without {κ} : {V : Type κ} → K → List (K × V) → List (K × V)
  without key [] = []
  without key ((k, v) ∷ es) =
      let rest = without key es in if same k key then rest else (k, v) ∷ rest

  -- `d.move_to_end(key)`, where `v` is the entry's value.
  unfoldable pub move_to_end {κ} : {V : Type κ} → K → V → List (K × V) → List (K × V)
  move_to_end key v es = without key es ++ (key, v) ∷ []

  -- `d[key] = v`, where there is no such key.
  unfoldable pub insert {κ} : {V : Type κ} → K → V → List (K × V) → List (K × V)
  insert key v es = es ++ (key, v) ∷ []

  -- The keys alone.
  unfoldable pub forget : K → List K → List K
  forget key [] = []
  forget key (k ∷ ks) = let rest = forget key ks in if same k key then rest else k ∷ rest

abbrev pub keys_of {ℓ κ} : {K : Type ℓ} {V : Type κ} → List (K × V) → List K
keys_of [] = []
keys_of ((k, v) ∷ es) = k ∷ keys_of es
