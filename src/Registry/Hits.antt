-- ===== src/Registry/Hits.antt =====
-- The identity that `get_breaker` returns (asyncio_gateway/helpers/internal/breaker_registry.py).
use async_gateway.Prelude.{
  ℕ, ◌≤◌, ◌≡◌, ◌↔◌, refl, ap, ◌∙◌, Bool, true, inl, inr, Option-cases, Option, none, some, List, [],
  ◌∷◌, ◌++◌, arith, length,
}
use async_gateway.Values.{Value, Result, ok, err}
use async_gateway.Settings.{BreakerSettings, validated_breaker_config}
use async_gateway.Registry.{
  BreakerKey, World, Callbacks, same_key, same_key_iff, obtain, given, with_settings, get_breaker,
}
use async_gateway.Registry.Ordered.{find, without, move_to_end, insert, evict}

module _ {ℓ κ} {K : Type ℓ} {V : Type κ} (same : K → K → Bool)
    (same_iff : (a b : K) → (same a b ≡ true) ↔ (a ≡ b)) where
  find-without : (k : K) (es : List (K × V)) → find same k (without same k es) ≡ none
  unfolding find without
  find-without k [] = refl
  find-without k ((j, v) ∷ es) = ground (arith, find-without k es)

  find-append :
      (k : K) (v : V) (es : List (K × V))
      → find same k es ≡ none
      → find same k (es ++ (k, v) ∷ []) ≡ some v
  unfolding find
  find-append k v [] h = ground (arith, same_iff k k)
  find-append k v ((j, w) ∷ es) h = ground (arith, find-append k v es)

  find-evict :
      (m : ℕ) (k : K) (v : V) (es : List (K × V))
      → 1 ≤ m
      → find same k es ≡ none
      → find same k (evict m (es ++ (k, v) ∷ [])) ≡ some v
  unfolding evict find
  find-evict m k v [] le h = ground (arith, same_iff k k)
  find-evict m k v ((j, w) ∷ es) le h = ground (arith, find-evict m k v es le, find-append k v es)

-- The key that was just looked up is there.
find-obtain :
    (c : Callbacks) (m : ℕ) (key : BreakerKey) (s : BreakerSettings) (w : World)
    → 1 ≤ m
    → find same_key key (obtain c m key s w).1.entries ≡ some (obtain c m key s w).0
unfolding obtain move_to_end insert
find-obtain c m key s w le = elim (Option-cases (find same_key key w.entries)) [
  | inl missing ↦
      rw (missing, obtain)
        (find-evict same_key same_key_iff m key (length w.breakers) w.entries le missing)
  | inr (id, found) ↦
      rw (found, obtain)
        (find-append same_key same_key_iff key id (without same_key key w.entries)
          (find-without same_key same_key_iff key w.entries))
]

-- A key that is there is answered with its breaker.
obtain-found :
    (c : Callbacks) (m : ℕ) (key : BreakerKey) (s : BreakerSettings) (w : World) (id : ℕ)
    → find same_key key w.entries ≡ some id
    → ((obtain c m key s w).0 ≡ id) × ((obtain c m key s w).1.breakers ≡ w.breakers)
unfolding obtain
obtain-found c m key s w id found = rw (found, obtain) (refl, refl)

again :
    (c : Callbacks) (m : ℕ) (key : BreakerKey) (w : World) (id : ℕ)
    (first second : Result BreakerSettings) (s : BreakerSettings)
    → 1 ≤ m
    → (with_settings c m key w first).0 ≡ ok id
    → second ≡ ok s
    → ((with_settings c m key (with_settings c m key w first).1 second).0 ≡ ok id)
      × ((with_settings c m key (with_settings c m key w first).1 second).1.breakers
          ≡ (with_settings c m key w first).1.breakers)
again c m key w id (err e) second s le h accepted = cc
again c m key w id (ok s1) second s le h accepted = rw accepted (
    let known =
      obtain-found c m key s (obtain c m key s1 w).1 (obtain c m key s1 w).0
        (find-obtain c m key s1 w le) in
    (ap ok known.0 ∙ h, known.1))

-- After an accepted call, another accepted call with the same key returns the same breaker,
-- whatever its configuration, and constructs none.
pub get_breaker-again :
    (c : Callbacks) (m : ℕ) (key : BreakerKey) (first second : Option Value) (w : World) (id : ℕ)
    (s : BreakerSettings)
    → 1 ≤ m
    → (get_breaker c m key first w).0 ≡ ok id
    → validated_breaker_config (given second) ≡ ok s
    → ((get_breaker c m key second (get_breaker c m key first w).1).0 ≡ ok id)
      × ((get_breaker c m key second (get_breaker c m key first w).1).1.breakers
          ≡ (get_breaker c m key first w).1.breakers)
unfolding get_breaker
get_breaker-again c m key first second w id s le h accepted =
    again c m key w id (validated_breaker_config (given first))
      (validated_breaker_config (given second)) s le h accepted
