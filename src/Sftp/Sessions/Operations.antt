-- ===== src/Sftp/Sessions/Operations.antt =====
-- The operations among what an SFTP server is asked (asyncio_gateway/logic/sftp_client.py).
use async_gateway.Prelude.{◌≡◌, refl, ◌∙◌, ap, none, List, [], ◌∷◌, ◌++◌}
use async_gateway.Sftp.Failures.{Reply, got, lost}
use async_gateway.Sftp.Sessions.{Operation, Event, connected, operated, inspected, listed, World}

abbrev pub operations : List Event → List Operation
operations [] = []
operations (operated operation ∷ events) = operation ∷ operations events
operations (_ ∷ events) = operations events

-- One operation was made, which the breaker's `run` returned from.
abbrev pub RanOnce : World → List Event → Type 0
RanOnce w events =
    (operation : Operation) × (operations events ≡ operation ∷ []) × (w.run operation ≡ none)

abbrev pub RepliesOnce {ℓ} : {A : Type ℓ} → World → List Event → Reply A → Type 0
RepliesOnce w events (lost e) = Unit
RepliesOnce w events (got a) = RanOnce w events

pub operations-append :
    (xs ys : List Event) → operations (xs ++ ys) ≡ operations xs ++ operations ys
operations-append [] ys = refl
operations-append (operated o ∷ xs) ys = ap (λ os. o ∷ os) (operations-append xs ys)
operations-append (connected k ∷ xs) ys = operations-append xs ys
operations-append (inspected path ∷ xs) ys = operations-append xs ys
operations-append (listed path ∷ xs) ys = operations-append xs ys

-- Looking makes no operation.
pub RanOnce-before :
    (w : World) (asked looked : List Event)
    → operations looked ≡ []
    → RanOnce w asked
    → RanOnce w (asked ++ looked)
RanOnce-before w asked looked quiet (o, made, ran) = (
  o,
  operations-append asked looked
      ∙ ap (λ os. operations asked ++ os) quiet
      ∙ ap (λ os. os ++ []) made,
  ran,
)

pub RanOnce-after :
    (w : World) (looked asked : List Event)
    → operations looked ≡ []
    → RanOnce w asked
    → RanOnce w (looked ++ asked)
RanOnce-after w looked asked quiet (o, made, ran) =
    (o, operations-append looked asked ∙ ap (λ os. os ++ operations asked) quiet ∙ made, ran)
