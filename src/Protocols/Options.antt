-- ===== src/Protocols/Options.antt =====
-- Which options are accepted, and a destination whose port cannot be read
-- (asyncio_gateway/helpers/internal/base.py).
use async_gateway.Prelude.{
  String, Bool, true, false, not, ◌&&◌, ◌||◌, ◌≡◌, refl, sym, ◌∙◌, Option, none, some, List, [],
  ◌∷◌, arith, Dict, keys, has_key, contains, any, all, find?, is_some, if◌then◌else◌,
}
use async_gateway.Values.{Value, dict, Fields, fields, Result, ok, err, value_error, ◌>>=◌}
use async_gateway.Values.Texts.{Texts, Parts, Urls}
use async_gateway.Settings.Checks.{unknown}
use async_gateway.Protocols.{
  is_security_sensitive_option, absent, without_absent, closed, tolerated, known,
  validated_protocol_info, Letters, has_numeric_port, destination_of, located, port_of,
}
use Prim.Native.String.{◌++◌}

abbrev pub is_ok {ℓ} : {A : Type ℓ} → Result A → Bool
is_ok (ok a) = true
is_ok (err e) = false

abbrev is_nil {ℓ} : {A : Type ℓ} → List A → Bool
is_nil [] = true
is_nil (x ∷ xs) = false

absent-is_nil :
    (required : List String) (info : Dict Value)
    → is_nil (absent required info) ≡ all (λ k. has_key k info) required
unfolding absent
absent-is_nil [] info = refl
absent-is_nil (k ∷ required) info = ground (arith, absent-is_nil required info)

unknown-is_nil :
    (names ks : List String) → is_nil (unknown names ks) ≡ all (λ k. contains names k) ks
unfolding unknown
unknown-is_nil names [] = refl
unknown-is_nil names (k ∷ ks) = ground (arith, unknown-is_nil names ks)

any-unknown :
    (p : String → Bool) (names ks : List String)
    → not (any p (unknown names ks)) ≡ all (λ k. contains names k || not (p k)) ks
unfolding unknown
any-unknown p names [] = refl
any-unknown p names (k ∷ ks) = ground (arith, any-unknown p names ks)

-- A strategy takes the key: one of its own, or, without a closed list, one that resembles no security
-- control.
abbrev pub takes : (String → Bool) → Option (List String) → Option (List String) → String → Bool
takes sensitive (some allowed) accepted k = contains allowed k
takes sensitive none (some accepted) k = contains accepted k || not (sensitive k)
takes sensitive none none k = true

all-true : (ks : List String) → all (λ k. true) ks ≡ true
all-true [] = refl
all-true (k ∷ ks) = all-true ks

closed-is_ok : (ks : List String) (info : Dict Value) → is_ok (closed ks info) ≡ is_nil ks
closed-is_ok ks info = ground arith

tolerated-is_ok :
    (p : String → Bool) (ks : List String) (info : Dict Value)
    → is_ok (tolerated p ks info) ≡ not (any p ks)
tolerated-is_ok p [] info = refl
tolerated-is_ok p (k ∷ ks) info = ground arith

known-is_ok :
    (p : String → Bool) (allowed accepted : Option (List String)) (info : Dict Value)
    → is_ok (known p allowed accepted info) ≡ all (takes p allowed accepted) (keys info)
known-is_ok p (some allowed) accepted info =
    closed-is_ok (unknown allowed (keys info)) info ∙ unknown-is_nil allowed (keys info)
known-is_ok p none (some accepted) info =
    tolerated-is_ok p (unknown accepted (keys info)) info ∙ any-unknown p accepted (keys info)
known-is_ok p none none info = sym (all-true (keys info))

checked-is_ok :
    (p : String → Bool) (names : List String) (allowed accepted : Option (List String))
    (info : Dict Value)
    → is_ok (without_absent names info >>= known p allowed accepted)
      ≡ (is_nil names && is_ok (known p allowed accepted info))
checked-is_ok p names allowed accepted info = ground arith

-- A mapping of options is accepted exactly where every required key is there and the strategy takes
-- every key.
pub validated_protocol_info_lem :
    (t : Texts) (replace : String → String) (required : List String)
    (allowed accepted : Option (List String)) (fs : Fields)
    → is_ok (validated_protocol_info t replace required allowed accepted (dict fs)) ≡ (
        all (λ k. has_key k (fields fs)) required
        && all (takes (is_security_sensitive_option t replace) allowed accepted) (keys (fields fs)))
unfolding validated_protocol_info
validated_protocol_info_lem t replace required allowed accepted fs =
    checked-is_ok (is_security_sensitive_option t replace) (absent required (fields fs)) allowed
      accepted (fields fs)
    ∙ ground (
      arith,
      absent-is_nil required (fields fs),
      known-is_ok (is_security_sensitive_option t replace) allowed accepted (fields fs),
    )

-- Where no port is named and the URL's network location ends in digits that are no port, the host's
-- `ValueError` escapes, whatever the protocol.
pub destination_of-escapes :
    (t : Texts) (u : Urls) (l : Letters) (protocol url : String) (parts : Parts)
    → u.split (if is_some (find? url "://") then url else "//" ++ url) ≡ some parts
    → has_numeric_port l.is_digit (l.code_points parts.netloc) ≡ true
    → parts.port ≡ none
    → destination_of t u l protocol url none ≡ err value_error
unfolding destination_of located port_of
destination_of-escapes t u l protocol url parts split numeric unread =
    rw (split, destination_of, located) (rw (numeric, unread, port_of) refl)
