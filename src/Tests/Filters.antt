-- ===== src/Tests/Filters.antt =====
-- The filters of asyncio_gateway/helpers/internal/filters_helper.py at concrete payloads.
use async_gateway.Filters.{dumped}
use async_gateway.Filters.{coerce_query_value}
use async_gateway.Filters.{repeated}
use async_gateway.Filters.{pairs_of}
use async_gateway.Filters.{is_get}
use async_gateway.Prelude.{String, false, none, some, Option, [], ◌∷◌, ◌≡◌, refl}
use async_gateway.Prelude.Int.{pos}
use async_gateway.Values.{
  Value, int, bool, text, dict, list, cons, nil, Fields, field, end, ok, err, type_error,
  none_value,
}
use async_gateway.Filters.{Codec, params, filtered, build_query_params, json_filters, is_get}

-- Texts stand for themselves, every container is dumped as the same text and nothing else is.
abbrev dump_containers : Value → Option String
dump_containers (list vs) = some "[]"
dump_containers (dict fs) = some "{}"
dump_containers _ = none

abbrev pub codec : Codec
codec = record {
  texts = record { lower = λ s. s; upper = λ s. s; strip = λ s. s };
  head = λ s. s;
  ends_with = λ s suffix. false;
  dumps = dump_containers;
  shown = λ v. "7";
}

abbrev query : Fields
query =
    field "tag" (list (cons (text "a") (cons (int (pos 7)) nil)))
      (field "deep" (dict end) (field "on" (bool false) (field "gap" none_value end)))

query_pairs :
    filtered codec json_filters "get" (dict query)
    ≡ ok
        (params (("tag", "a") ∷ ("tag", "7") ∷ ("deep", "{}") ∷ ("on", "false") ∷ ("gap", "") ∷ []))
unfolding filtered is_get build_query_params pairs_of repeated coerce_query_value dumped
query_pairs = refl

undumpable : build_query_params record codec { dumps = λ v. none } query ≡ err type_error
unfolding build_query_params pairs_of repeated coerce_query_value dumped
undumpable = refl
