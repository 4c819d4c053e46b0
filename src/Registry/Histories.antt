-- ===== src/Registry/Histories.antt =====
-- The keys of the registry after any calls of `get_breaker`
-- (asyncio_gateway/helpers/internal/breaker_registry.py).
use async_gateway.Prelude.{
  ℕ, ◌-◌, drop, ◌≤◌, ◌≡◌, refl, ap, ◌∙◌, sym, subst, inl, inr, Option-cases, Option, none, some,
  List, [], ◌∷◌, ◌++◌, arith, length, length-append, Distinct,
}
use async_gateway.Values.{Value, Result, ok, err}
use async_gateway.Settings.{BreakerSettings, validated_breaker_config}
use async_gateway.Registry.{
  BreakerKey, World, Callbacks, same_key, same_key_iff, obtain, given, with_settings, get_breaker,
}
use async_gateway.Registry.Ordered.{find, without, move_to_end, insert, forget, evict, keys_of}
use async_gateway.Registry.Recency.{
  used, evict-drop, evict-fits, length-evict, Distinct-evict, keys_of-append, length-keys_of,
  keys_of-evict, keys_of-without, forget-missing, length-forget_found, Distinct-used, evict-used,
}

-- The keys in the order of their last uses, the oldest first.
abbrev pub recency : List BreakerKey → List BreakerKey → List BreakerKey
recency ks [] = ks
recency ks (k ∷ history) = recency (used same_key same_key_iff k ks) history

-- A call of `get_breaker`: its key and its configuration.
abbrev Call : Type 0
Call = BreakerKey × Option Value

abbrev pub after : Callbacks → ℕ → World → List Call → World
after c m w [] = w
after c m w ((key, config) ∷ calls) = after c m (get_breaker c m key config w).1 calls

-- The keys of the calls whose configuration is accepted.
abbrev when_ok : Result BreakerSettings → BreakerKey → List BreakerKey → List BreakerKey
when_ok (ok s) key ks = key ∷ ks
when_ok (err e) key ks = ks

abbrev pub accepted : List Call → List BreakerKey
accepted [] = []
accepted ((key, config) ∷ calls) =
    when_ok (validated_breaker_config (given config)) key (accepted calls)

abbrev pub held : World → List BreakerKey
held w = keys_of w.entries

abbrev pub empty : World
empty = record { entries = []; breakers = [] }

held-miss :
    (m id : ℕ) (key : BreakerKey) (es : List (BreakerKey × ℕ))
    → find same_key key es ≡ none
    → keys_of (evict m (es ++ (key, id) ∷ []))
      ≡ evict m (used same_key same_key_iff key (keys_of es))
held-miss m id key es missing =
    keys_of-evict m (es ++ (key, id) ∷ [])
    ∙ ap (evict m) (
        keys_of-append es ((key, id) ∷ [])
        ∙ ap (λ ks. ks ++ key ∷ []) (sym (forget-missing same_key same_key_iff key es missing)))

held-hit :
    (m id : ℕ) (key : BreakerKey) (es : List (BreakerKey × ℕ))
    → find same_key key es ≡ some id
    → length es ≤ m
    → keys_of (without same_key key es ++ (key, id) ∷ [])
      ≡ evict m (used same_key same_key_iff key (keys_of es))
held-hit m id key es found fits =
    keys_of-append (without same_key key es) ((key, id) ∷ [])
    ∙ ap (λ ks. ks ++ key ∷ []) (keys_of-without same_key same_key_iff key es)
    ∙ sym (
        evict-fits m (used same_key same_key_iff key (keys_of es)) (
          omega (
            arith,
            fits,
            length-append (forget same_key key (keys_of es)) (key ∷ []),
            length-forget_found same_key same_key_iff key es id found,
          )))

-- One use: the key becomes the last, and what does not fit is dropped from the front.
held-obtain :
    (c : Callbacks) (m : ℕ) (key : BreakerKey) (s : BreakerSettings) (w : World)
    → length w.entries ≤ m
    → held (obtain c m key s w).1 ≡ evict m (used same_key same_key_iff key (held w))
unfolding obtain move_to_end insert
held-obtain c m key s w h = elim (Option-cases (find same_key key w.entries)) [
  | inl missing ↦ rw (missing, obtain) (held-miss m (length w.breakers) key w.entries missing)
  | inr (id, found) ↦ rw (found, obtain) (held-hit m id key w.entries found h)
]

-- The keys of a world that holds at most `m` of them, none twice.
abbrev pub IsLru : ℕ → World → Type 0
IsLru m w = (length w.entries ≤ m) × Distinct (held w)

-- The keys are the `m` most recent of `ks`.
abbrev Follows : ℕ → World → List BreakerKey → Type 0
Follows m w ks = (held w ≡ evict m ks) × Distinct ks

Follows-fits : (m : ℕ) (w : World) (ks : List BreakerKey) → Follows m w ks → length w.entries ≤ m
Follows-fits m w ks (e, d) = omega (arith, length-keys_of w.entries, ap length e, length-evict m ks)

Follows-obtain :
    (c : Callbacks) (m : ℕ) (key : BreakerKey) (s : BreakerSettings) (w : World)
    (ks : List BreakerKey)
    → Follows m w ks
    → Follows m (obtain c m key s w).1 (used same_key same_key_iff key ks)
Follows-obtain c m key s w ks (e, d) = (
  held-obtain c m key s w (Follows-fits m w ks (e, d))
      ∙ ap (λ hs. evict m (used same_key same_key_iff key hs)) e
      ∙ evict-used same_key same_key_iff m key ks d,
  Distinct-used same_key same_key_iff key ks d,
)

-- One call, and then the rest.
Follows-call :
    (c : Callbacks) (m : ℕ) (key : BreakerKey) (calls : List Call) (w : World)
    (ks : List BreakerKey) (r : Result BreakerSettings)
    → ((v : World) (js : List BreakerKey)
        → Follows m v js
        → Follows m (after c m v calls) (recency js (accepted calls)))
    → Follows m w ks
    → Follows m
        (after c m (with_settings c m key w r).1 calls)
        (recency ks (when_ok r key (accepted calls)))
Follows-call c m key calls w ks (err e) rest h = rest w ks h
Follows-call c m key calls w ks (ok s) rest h =
    rest (obtain c m key s w).1 (used same_key same_key_iff key ks)
      (Follows-obtain c m key s w ks h)

Follows-after :
    (c : Callbacks) (m : ℕ) (calls : List Call) (w : World) (ks : List BreakerKey)
    → Follows m w ks
    → Follows m (after c m w calls) (recency ks (accepted calls))
unfolding get_breaker
Follows-after c m [] w ks h = h
Follows-after c m ((key, config) ∷ calls) w ks h =
    Follows-call c m key calls w ks (validated_breaker_config (given config))
      (λ v js. Follows-after c m calls v js) h

-- After any calls of `get_breaker` on the empty registry, the keys that it holds are the last `m` of
-- the keys that a call with an accepted configuration has used, in the order of their last uses, and
-- all of them where they are fewer.
pub held-after :
    (c : Callbacks) (m : ℕ) (calls : List Call)
    → held (after c m empty calls)
      ≡ drop (length (recency [] (accepted calls)) - m) (recency [] (accepted calls))
unfolding evict
held-after c m calls =
    (Follows-after c m calls empty [] (refl, tt)).0 ∙ evict-drop m (recency [] (accepted calls))

-- After any calls of `get_breaker`, the registry holds at most `m` entries, and none of its keys
-- stands twice.
pub after-IsLru : (c : Callbacks) (m : ℕ) (calls : List Call) → IsLru m (after c m empty calls)
unfolding evict
after-IsLru c m calls =
    let follows = Follows-after c m calls empty [] (refl, tt) in
    (
      Follows-fits m (after c m empty calls) (recency [] (accepted calls)) follows,
      subst Distinct (sym follows.0) (Distinct-evict m (recency [] (accepted calls)) follows.1),
    )
