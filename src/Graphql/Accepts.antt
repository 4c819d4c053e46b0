-- ===== src/Graphql/Accepts.antt =====
-- The headers of a GraphQL call (`_accepted_media_types` and `canonical_graphql_headers` of
-- asyncio_gateway/logic/graphql_client.py). A header's value is split as its code points.
use async_gateway.Prelude.{
  ℕ, String, Bool, true, false, not, ◌&&◌, ◌||◌, Option, none, some, List, [], ◌∷◌, ◌++◌, ◌==◌,
  Dict, put, any, all, contains, eqb, leb, length, if◌then◌else◌, is_none,
}
use async_gateway.Values.{Result, ok, err, wrong_type, bad_character, ◌>>=◌}
use async_gateway.Filters.{Codec, normalise_media_type}

pub record Letters : Type 0 where
  pub codec : Codec
  pub code_points : String → List ℕ
  pub of_points : List ℕ → String

abbrev pub graphql_response_media_type : String
graphql_response_media_type = "application/graphql-response+json"

abbrev pub legacy_graphql_media_type : String
legacy_graphql_media_type = "application/json"

abbrev pub graphql_accept : String
graphql_accept = "application/graphql-response+json, application/json"

abbrev pub supported_media_types : List String
supported_media_types = graphql_response_media_type ∷ legacy_graphql_media_type ∷ []

abbrev begun : ℕ → List (List ℕ) → List (List ℕ)
begun x [] = (x ∷ []) ∷ []
begun x (part ∷ parts) = (x ∷ part) ∷ parts

-- `split(c)`: at least one part.
unfoldable pub split : ℕ → List ℕ → List (List ℕ)
split c [] = [] ∷ []
split c (x ∷ xs) = let rest = split c xs in if eqb x c then [] ∷ rest else begun x rest

-- `partition('=')`: what is before, and what is after where there is a separator.
unfoldable pub partition : List ℕ → List ℕ × Option (List ℕ)
partition [] = ([], none)
partition (x ∷ xs) =
    let (before, after) = partition xs in if eqb x b'=' then ([], some xs) else (x ∷ before, after)

abbrev pub is_digit : ℕ → Bool
is_digit x = leb b'0' x && leb x b'9'

abbrev fraction : (ℕ → Bool) → List ℕ → Bool
fraction admits ds = leb (length ds) 3 && all admits ds

abbrev quality_after : ℕ → List ℕ → Option Bool
quality_after x [] = if eqb x b'0' then some false else if eqb x b'1' then some true else none
quality_after x (dot ∷ ds) =
    if not (eqb dot b'.')
    then none
    else if eqb x b'0' && fraction is_digit ds
    then some (any (λ d. not (eqb d b'0')) ds)
    else if eqb x b'1' && fraction (eqb b'0') ds
    then some true
    else none

-- `_QVALUE_PATTERN.fullmatch`, and whether the number is positive.
unfoldable pub quality_value : List ℕ → Option Bool
quality_value [] = none
quality_value (x ∷ xs) = quality_after x xs

module _ (l : Letters) where
  stripped : List ℕ → List ℕ
  stripped raw = l.code_points (l.codec.texts.strip (l.of_points raw))

  abbrev names_quality : List ℕ → Bool
  names_quality name = l.codec.texts.lower (l.codec.texts.strip (l.of_points name)) == "q"

  -- The quality of one item, given the one that was read before it, if any; `none` is the refusal.
  unfoldable pub quality : Option Bool → List (List ℕ) → Option (Option Bool)
  unfolding partition quality_value stripped
  quality had [] = some had
  quality had (parameter ∷ parameters) =
      let (name, raw) = partition parameter in
      let skipped = quality had parameters in
      let seen =
        quality (elim raw [ none ↦ none | some v ↦ quality_value (stripped v) ]) parameters in
      if not (names_quality name)
      then skipped
      else if not (is_none had)
          || is_none (elim raw [ none ↦ none | some v ↦ quality_value (stripped v) ])
      then none
      else seen

  abbrev weighed : String → Option Bool → List String → List String
  weighed media (some false) accepted = accepted
  weighed media _ accepted = media ∷ accepted

  abbrev item_media : List (List ℕ) → String
  item_media [] = ""
  item_media (first ∷ parameters) = normalise_media_type l.codec (some (l.of_points first))

  abbrev parameters_of : List (List ℕ) → List (List ℕ)
  parameters_of [] = []
  parameters_of (first ∷ parameters) = parameters

  -- The loop over the items; a refusal of one is the refusal of all.
  unfoldable pub accepted_items : List (List ℕ) → Result (List String)
  unfolding split quality
  accepted_items [] = ok []
  accepted_items (item ∷ items) =
      let parts = split b';' item in
      let rest = accepted_items items in
      if item_media parts == "" then rest else elim (quality none (parameters_of parts)) [
        | none ↦ err (wrong_type "Accept")
        | some q ↦ rest >>= λ accepted. ok (weighed (item_media parts) q accepted)
      ]

  -- `_accepted_media_types`: 34 is the quotation mark and 92 the backslash.
  unfoldable pub accepted_media_types : List ℕ → Result (List String)
  unfolding accepted_items
  accepted_media_types given =
      if any (eqb 34) given || any (eqb 92) given
      then err (bad_character "Accept")
      else accepted_items (split b',' given)

  abbrev kept :
      String × String → Result (Dict String × List String) → Result (Dict String × List String)
  kept header rest = rest >>= λ (checked, accepts). ok (header ∷ checked, accepts)

  abbrev accepting :
      String → Result (Dict String × List String) → Result (Dict String × List String)
  accepting given rest = rest >>= λ (checked, accepts). ok (checked, given ∷ accepts)

  -- The headers other than the two, and the values of `Accept`.
  unfoldable pub sorted_headers : Dict String → Result (Dict String × List String)
  sorted_headers [] = ok ([], [])
  sorted_headers ((name, given) ∷ headers) =
      let rest = sorted_headers headers in
      if l.codec.texts.lower name == "content-type"
      then (if normalise_media_type l.codec (some given) == legacy_graphql_media_type
          then rest
          else err (wrong_type "headers"))
      else if l.codec.texts.lower name == "accept"
      then accepting given rest
      else kept (name, given) rest

  abbrev joined : List String → List ℕ
  joined [] = []
  joined (v ∷ []) = l.code_points v
  joined (v ∷ w ∷ vs) = l.code_points v ++ b',' ∷ joined (w ∷ vs)

  abbrev pub advertises : List String → Bool
  advertises accepted = all (contains accepted) supported_media_types

  abbrev agreed : List String → Result Bool
  agreed [] = ok true
  agreed (v ∷ vs) = accepted_media_types (joined (v ∷ vs)) >>= λ accepted. ok (advertises accepted)

  unfoldable pub canonical_graphql_headers : Dict String → Result (Dict String)
  unfolding sorted_headers accepted_media_types
  canonical_graphql_headers headers = do
    (checked, accepts) ← sorted_headers headers
    advertised ← agreed accepts
    if advertised
        then ok (put "Accept" graphql_accept (put "Content-Type" legacy_graphql_media_type checked))
        else err (wrong_type "Accept")
