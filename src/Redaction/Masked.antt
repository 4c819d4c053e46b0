-- ===== src/Redaction/Masked.antt =====
-- What a redacted value shows (asyncio_gateway/utils/redaction.py).
use async_gateway.Prelude.{
  ℕ, zero, suc, String, Bool, true, false, not, ◌&&◌, ◌≡◌, refl, ap, sym, eq_iff, Bool-cases, inl,
  inr, arith, ◌==◌, if◌then◌else◌,
}
use async_gateway.Values.{
  Value, none_value, bool, int, float, text, bytes, list, dict, function, exception_class, object,
  Values, nil, cons, Fields, end, field,
}
use async_gateway.Redaction.{
  redacted, redact_recursive, redact_fields, redact_items, redact_payload, payload_redaction_depth,
  among, sensitive_names,
}

abbrev pub is_redacted : Value → Bool
is_redacted (text s) = s == redacted
is_redacted _ = false

-- Down to the depth, no credentials object shows, and each value of a sensitive name is the mask; what
-- is deeper is not looked at.
unfoldable mutual
  pub masked : (String → Bool) → (String → Bool) → ℕ → Value → Bool
  masked is_auth sensitive depth (object name) = not (is_auth name)
  masked is_auth sensitive (suc depth) (dict fs) = masked_fields is_auth sensitive depth fs
  masked is_auth sensitive (suc depth) (list vs) = masked_items is_auth sensitive depth vs
  masked is_auth sensitive depth v = true

  pub masked_fields : (String → Bool) → (String → Bool) → ℕ → Fields → Bool
  masked_fields is_auth sensitive depth end = true
  masked_fields is_auth sensitive depth (field k v fs) =
      let rest = masked is_auth sensitive depth v in
      (if sensitive k then is_redacted v else rest) && masked_fields is_auth sensitive depth fs

  pub masked_items : (String → Bool) → (String → Bool) → ℕ → Values → Bool
  masked_items is_auth sensitive depth nil = true
  masked_items is_auth sensitive depth (cons v vs) =
      masked is_auth sensitive depth v && masked_items is_auth sensitive depth vs

both : (a b : Bool) → (a && b) ≡ true → (a ≡ true) × (b ≡ true)
both a b h = ground arith

when_true : (a b c : Bool) → a ≡ true → (if a then b else c) ≡ true → b ≡ true
when_true a b c held h = ground arith

when_false : (a b c : Bool) → a ≡ false → (if a then b else c) ≡ true → c ≡ true
when_false a b c free h = ground arith

is_redacted-eq : (v : Value) → is_redacted v ≡ true → v ≡ text redacted
is_redacted-eq (text s) h = ap text ((eq_iff s redacted).0 h)
is_redacted-eq none_value h = ground arith
is_redacted-eq (bool b) h = ground arith
is_redacted-eq (int n) h = ground arith
is_redacted-eq (float x) h = ground arith
is_redacted-eq (bytes s) h = ground arith
is_redacted-eq (list vs) h = ground arith
is_redacted-eq (dict fs) h = ground arith
is_redacted-eq (function s) h = ground arith
is_redacted-eq (exception_class s) h = ground arith
is_redacted-eq (object s) h = ground arith

module _ (is_auth sensitive : String → Bool) where
  mutual
    unfolding masked redact_recursive

    redacted-masked :
        (depth : ℕ) (v : Value)
        → masked is_auth sensitive depth (redact_recursive is_auth sensitive depth v) ≡ true
    redacted-masked depth (object name) = elim (Bool-cases (is_auth name)) [
      | inl held ↦ ground (arith, held)
      | inr free ↦ ground (arith, free)
    ]
    redacted-masked (suc depth) (dict fs) = redacted_fields-masked depth fs
    redacted-masked (suc depth) (list vs) = redacted_items-masked depth vs
    redacted-masked zero (dict fs) = refl
    redacted-masked zero (list fs) = refl
    redacted-masked depth none_value = refl
    redacted-masked depth (bool b) = refl
    redacted-masked depth (int n) = refl
    redacted-masked depth (float x) = refl
    redacted-masked depth (text s) = refl
    redacted-masked depth (bytes s) = refl
    redacted-masked depth (function s) = refl
    redacted-masked depth (exception_class s) = refl

    redacted_fields-masked :
        (depth : ℕ) (fs : Fields)
        → masked_fields is_auth sensitive depth (redact_fields is_auth sensitive depth fs) ≡ true
    redacted_fields-masked depth end = refl
    redacted_fields-masked depth (field k v fs) =
        ground (arith, redacted-masked depth v, redacted_fields-masked depth fs)

    redacted_items-masked :
        (depth : ℕ) (vs : Values)
        → masked_items is_auth sensitive depth (redact_items is_auth sensitive depth vs) ≡ true
    redacted_items-masked depth nil = refl
    redacted_items-masked depth (cons v vs) =
        ground (arith, redacted-masked depth v, redacted_items-masked depth vs)

  mutual
    unfolding masked redact_recursive

    redacted-fixed :
        (depth : ℕ) (v : Value)
        → masked is_auth sensitive depth v ≡ true
        → redact_recursive is_auth sensitive depth v ≡ v
    redacted-fixed depth (object name) h = ground (arith, h)
    redacted-fixed (suc depth) (dict fs) h = ap dict (redacted_fields-fixed depth fs h)
    redacted-fixed (suc depth) (list vs) h = ap list (redacted_items-fixed depth vs h)
    redacted-fixed zero (dict fs) h = refl
    redacted-fixed zero (list fs) h = refl
    redacted-fixed depth none_value h = refl
    redacted-fixed depth (bool b) h = refl
    redacted-fixed depth (int n) h = refl
    redacted-fixed depth (float x) h = refl
    redacted-fixed depth (text s) h = refl
    redacted-fixed depth (bytes s) h = refl
    redacted-fixed depth (function s) h = refl
    redacted-fixed depth (exception_class s) h = refl

    redacted_fields-fixed :
        (depth : ℕ) (fs : Fields)
        → masked_fields is_auth sensitive depth fs ≡ true
        → redact_fields is_auth sensitive depth fs ≡ fs
    redacted_fields-fixed depth end h = refl
    redacted_fields-fixed depth (field k v fs) h =
        let (first, rest) =
          both (if sensitive k then is_redacted v else masked is_auth sensitive depth v)
            (masked_fields is_auth sensitive depth fs) h in
        elim (Bool-cases (sensitive k)) [
          | inl held ↦
              rw (held, redacted_fields-fixed depth fs rest)
                (ap (λ x. field k x fs)
                  (sym (
                    is_redacted-eq v (
                      when_true (sensitive k) (is_redacted v) (masked is_auth sensitive depth v)
                        held first))))
          | inr free ↦
              rw
                (
                  free,
                  redacted_fields-fixed depth fs rest,
                  redacted-fixed depth v (
                      when_false (sensitive k) (is_redacted v) (masked is_auth sensitive depth v)
                        free first),
                )
                refl
        ]

    redacted_items-fixed :
        (depth : ℕ) (vs : Values)
        → masked_items is_auth sensitive depth vs ≡ true
        → redact_items is_auth sensitive depth vs ≡ vs
    redacted_items-fixed depth nil h = refl
    redacted_items-fixed depth (cons v vs) h =
        let (first, rest) =
          both (masked is_auth sensitive depth v) (masked_items is_auth sensitive depth vs) h in
        rw (redacted-fixed depth v first, redacted_items-fixed depth vs rest) refl

-- Down to four levels, a redacted payload shows no credentials object, and no value of a sensitive
-- name but the mask; to redact it again changes nothing.
pub redact_payload-masked :
    (is_auth : String → Bool) (casefold : String → String) (payload : Value)
    → masked is_auth
          (among casefold sensitive_names)
          payload_redaction_depth
          (redact_payload is_auth casefold payload)
        ≡ true
      × redact_payload is_auth casefold (redact_payload is_auth casefold payload)
        ≡ redact_payload is_auth casefold payload
unfolding redact_payload
redact_payload-masked is_auth casefold payload = (
  redacted-masked is_auth (among casefold sensitive_names) payload_redaction_depth payload,
  redacted-fixed is_auth (among casefold sensitive_names) payload_redaction_depth
      (redact_recursive is_auth (among casefold sensitive_names) payload_redaction_depth payload)
      (redacted-masked is_auth (among casefold sensitive_names) payload_redaction_depth payload),
)

-- A payload without credentials objects, in which the values of the sensitive names down to four
-- levels are masked already (so one without such names), comes back as it is.
pub redact_payload-fixed :
    (is_auth : String → Bool) (casefold : String → String) (payload : Value)
    → masked is_auth (among casefold sensitive_names) payload_redaction_depth payload ≡ true
    → redact_payload is_auth casefold payload ≡ payload
unfolding redact_payload
redact_payload-fixed is_auth casefold payload =
    redacted-fixed is_auth (among casefold sensitive_names) payload_redaction_depth payload
