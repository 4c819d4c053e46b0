-- ===== src/Tests/Errors.antt =====
-- asyncio_gateway/utils/exceptions.py and asyncio_gateway/utils/status_map.py at concrete inputs.
use async_gateway.Prelude.{zero, suc, ◌≡◌, refl, true, none, some, [], ◌∷◌}
use async_gateway.Errors.{
  unsafe_xml_error, host_key_error, serialization_error, http_status_error, is_subclass,
  status_code,
}
use async_gateway.Errors.Chain.{Store, cause_chain, unwrap_cause}

xml_is_serialization : is_subclass unsafe_xml_error serialization_error ≡ true
unfolding is_subclass
xml_is_serialization = refl

statuses :
    (status_code host_key_error none ≡ 495) × (status_code http_status_error (some 404) ≡ 404)
unfolding status_code
statuses = (refl, refl)

-- `RetriesExhausted()` from an `OSError`, whose own cause points back at the first.
abbrev cyclic : Store
cyclic zero = record { type_name = "RetriesExhausted"; text = ""; cause = some 1; context = none }
cyclic (suc n) = record { type_name = "OSError"; text = "refused"; cause = none; context = some 0 }

cyclic_chain : cause_chain cyclic 0 10 ≡ 0 ∷ 1 ∷ []
unfolding cause_chain
cyclic_chain = refl

cyclic_message :
    unwrap_cause (λ s. s) cyclic 0 10 ≡ ("RetriesExhausted: refused", some "OSError: refused")
unfolding unwrap_cause
cyclic_message = refl
