-- ===== src/Gcs/Attempts/Pins.antt =====
-- The generation that the attempts of one download read (asyncio_gateway/logic/gcs_client.py).
use async_gateway.Prelude.{
  ℕ, ◌≤◌, ◌≡◌, refl, true, Option, none, some, List, [], ◌∷◌, arith, All, subst, sym,
}
use async_gateway.Gcs.Failures.{◌>>◌, Failure, Answer, failed, answered}
use async_gateway.Gcs.Attempts.{
  Session, Transfer, DownloadPin, matches, reload_download_pin, download_attempt,
}

-- The attempts of one call, one after the other, and what each gives.
unfoldable pub download_attempts :
    Option ℕ → ℕ → Option DownloadPin → List (Session × Transfer) → List (Answer DownloadPin)
download_attempts wanted cap pin [] = []
download_attempts wanted cap pin ((s, t) ∷ rest) =
    let (pin', (result, closed)) = download_attempt wanted cap pin s t in
    result ∷ download_attempts wanted cap pin' rest

-- What the reload of an attempt gives, if the calls before it get as far.
abbrev pub reached : Option ℕ → Session → Transfer → Answer DownloadPin
reached wanted s t =
    s.credentials
    >> (s.refresh >> (s.client >> (s.bucket >> (s.blob >> reload_download_pin wanted t.reloaded))))

-- The first reload of a call that gives a pin.
abbrev pub first_of : Answer DownloadPin → Option DownloadPin → Option DownloadPin
first_of (answered pin) later = some pin
first_of (failed e) later = later

abbrev pub first_pin : Option ℕ → List (Session × Transfer) → Option DownloadPin
first_pin wanted [] = none
first_pin wanted ((s, t) ∷ rest) = first_of (reached wanted s t) (first_pin wanted rest)

-- An attempt that succeeds reports the pin, whose size is within the cap.
abbrev pub Reports : Option ℕ → ℕ → Option DownloadPin → Answer DownloadPin → Type 0
Reports wanted cap pin (answered p) =
    (pin ≡ some p) × (p.size ≤ cap) × (matches wanted p.generation ≡ true)
Reports wanted cap pin (failed e) = Unit

module _ (wanted : Option ℕ) (cap : ℕ) where
  kept_pin :
      (pin : DownloadPin) (s : Session) (t : Transfer)
      → matches wanted pin.generation ≡ true
      → ((download_attempt wanted cap (some pin) s t).0 ≡ some pin)
        × Reports wanted cap (some pin) (download_attempt wanted cap (some pin) s t).1.0
  unfolding download_attempt
  kept_pin pin s t m = ground arith

  kept_pins :
      (pin : DownloadPin) (attempts : List (Session × Transfer))
      → matches wanted pin.generation ≡ true
      → All (Reports wanted cap (some pin)) (download_attempts wanted cap (some pin) attempts)
  unfolding download_attempts
  kept_pins pin [] m = tt
  kept_pins pin ((s, t) ∷ rest) m =
      let (kept, reports) = kept_pin pin s t m in
      (
        reports,
        subst (λ o. All (Reports wanted cap (some pin)) (download_attempts wanted cap o rest))
            (sym kept) (kept_pins pin rest m),
      )

  reached-matches :
      (s : Session) (t : Transfer) (pin : DownloadPin)
      → reached wanted s t ≡ answered pin
      → matches wanted pin.generation ≡ true
  unfolding reload_download_pin
  reached-matches s t pin h = ground arith

  -- An attempt without a pin whose reload gives none keeps none, and does not succeed.
  unpinned :
      (s : Session) (t : Transfer) (o : Option DownloadPin) (e : Failure)
      → reached wanted s t ≡ failed e
      → ((download_attempt wanted cap none s t).0 ≡ none)
        × Reports wanted cap o (download_attempt wanted cap none s t).1.0
  unfolding download_attempt
  unpinned s t o e h = (ground arith, ground arith)

  fresh_pin :
      (s : Session) (t : Transfer) (pin : DownloadPin)
      → reached wanted s t ≡ answered pin
      → ((download_attempt wanted cap none s t).0 ≡ some pin)
        × Reports wanted cap (some pin) (download_attempt wanted cap none s t).1.0
  unfolding download_attempt
  fresh_pin s t pin h = (ground arith, ground (arith, reached-matches s t pin h))

  first-Reports :
      (s : Session) (t : Transfer) (rest : List (Session × Transfer)) (a : Answer DownloadPin)
      → reached wanted s t ≡ a
      → All (Reports wanted cap (first_pin wanted rest)) (download_attempts wanted cap none rest)
      → All
          (Reports wanted cap (first_of a (first_pin wanted rest)))
          (download_attempts wanted cap none ((s, t) ∷ rest))
  unfolding download_attempts
  first-Reports s t rest (failed e) at later =
      let (lost, reports) = unpinned s t (first_pin wanted rest) e at in
      (
        reports,
        subst
            (λ o.
              All (Reports wanted cap (first_pin wanted rest))
                (download_attempts wanted cap o rest))
            (sym lost) later,
      )
  first-Reports s t rest (answered pin) at later =
      let (kept, reports) = fresh_pin s t pin at in
      (
        reports,
        subst (λ o. All (Reports wanted cap (some pin)) (download_attempts wanted cap o rest))
            (sym kept) (kept_pins pin rest (reached-matches s t pin at)),
      )

  -- Whatever the provider's reloads give at each attempt, the attempts that succeed all report one
  -- generation with its size and checksum: that of the first reload of the call that gave a pin,
  -- whether or not its attempt succeeded. It is the generation that the caller asked for, if any, and
  -- its size is within the cap.
  pub download_attempts-pinned :
      (attempts : List (Session × Transfer))
      → All
          (Reports wanted cap (first_pin wanted attempts))
          (download_attempts wanted cap none attempts)
  unfolding download_attempts
  download_attempts-pinned [] = tt
  download_attempts-pinned ((s, t) ∷ rest) =
      first-Reports s t rest (reached wanted s t) refl (download_attempts-pinned rest)
