-- ===== src/Soap/Requests/Rooted.antt =====
-- What `build_envelope` of asyncio_gateway/logic/soap_client.py sends, read again.
use async_gateway.Prelude.{
  ℕ, suc, ◌+◌, ◌≡◌, refl, ap, subst, length-append, Bool, true, false, not, ◌&&◌, ◌||◌, Option,
  some, List, [], ◌∷◌, ◌++◌, length, eqb, ltb, leb, all, arith, if◌then◌else◌, ◌∙◌,
}
use async_gateway.Soap.Prolog.{root_at, walk, skip_past, scan_prolog}
use async_gateway.Soap.Elements.{Element}
use async_gateway.Soap.Answers.{SoapVersion, envelope_namespace}
use async_gateway.Soap.Requests.{
  header_text, name_at, same, codes, Emitted, emitted, refused, same, Body, written, name_of,
  root_element_name, opening, wrapped, after_colon, body_text, enclosed, build_envelope,
}

-- The white space among the characters below 128.
abbrev pub ascii_space : ℕ → Bool
ascii_space c = (leb 9 c && leb c 13) || (leb 28 c && leb c 32)

-- `str.isspace` of a character below 128.
abbrev pub IsSpaceTest : (ℕ → Bool) → Type 0
IsSpaceTest is_space = (c : ℕ) → ltb c 128 ≡ true → is_space c ≡ ascii_space c

abbrev pub IsRooted : (ℕ → Bool) → List ℕ → Type 0
IsRooted is_space s = root_element_name is_space s ≡ emitted (codes "Envelope")

emitted_injective : {xs ys : List ℕ} → emitted xs ≡ emitted ys → xs ≡ ys
emitted_injective h = cc

abbrev in_name : ℕ → Bool
in_name c = ltb c 128 && not (ascii_space c || (eqb c b'>' || eqb c b'/'))

passed : (a b c : Bool) → (a && not (b || c)) ≡ true → (a ≡ true) × (b ≡ false) × (c ≡ false)
passed true false false h = (refl, refl, refl)
passed true true c h = cc
passed true false true h = cc
passed false b c h = cc

both : (a b : Bool) → (a && b) ≡ true → (a ≡ true) × (b ≡ true)
both true b h = (refl, h)
both false b h = cc

eqb_sound : (x y : ℕ) → eqb x y ≡ true → x ≡ y
eqb_sound x y h = ground (arith, h)

same_sound : (xs ys : List ℕ) → same xs ys ≡ true → xs ≡ ys
same_sound [] [] h = refl
same_sound [] (y ∷ ys) h = cc
same_sound (x ∷ xs) [] h = cc
same_sound (x ∷ xs) (y ∷ ys) h =
    let (one, others) = both (eqb x y) (same xs ys) h in
    ap (λ z. z ∷ xs) (eqb_sound x y one) ∙ ap (λ zs. y ∷ zs) (same_sound xs ys others)

module _ (is_space : ℕ → Bool) (ascii : IsSpaceTest is_space) where
  in_name_passes : (x : ℕ) → in_name x ≡ true → (is_space x || (eqb x b'>' || eqb x b'/')) ≡ false
  in_name_passes x h =
      let (low, dark, plain) = passed (ltb x 128) (ascii_space x) (eqb x b'>' || eqb x b'/') h in
      ap (λ b. b || (eqb x b'>' || eqb x b'/')) (ascii x low ∙ dark) ∙ plain

  name_of_word :
      (word rest : List ℕ) → all in_name word ≡ true → name_of is_space (word ++ b' ' ∷ rest) ≡ word
  name_of_word [] rest h = rw (ascii 32 refl) refl
  name_of_word (x ∷ xs) rest h =
      let (one, others) = both (in_name x) (all in_name xs) h in
      rw (in_name_passes x one) (ap (λ ys. x ∷ ys) (name_of_word xs rest others))

  -- Both passes of the loop, with the fuel that is left.
  walked :
      (fuel : ℕ) (rest : List ℕ)
      → walk is_space (suc (suc fuel)) 0 (opening ++ rest) ≡ some (root_at 38)
  unfolding walk skip_past
  walked fuel rest = rw (ascii b'<' refl) refl

  scanned : (rest : List ℕ) → scan_prolog is_space (opening ++ rest) ≡ some (root_at 38)
  unfolding scan_prolog
  scanned rest =
      let enough : suc (suc (length rest + 64)) ≡ length (opening ++ rest) + 1 =
        omega (arith, length-append opening rest) in
      subst (λ fuel. walk is_space fuel 0 (opening ++ rest) ≡ some (root_at 38)) enough
        (walked (length rest + 64) rest)

  opened-IsRooted : (rest : List ℕ) → IsRooted is_space (opening ++ rest)
  unfolding root_element_name
  opened-IsRooted rest =
      ap (name_at is_space (opening ++ rest)) (scanned rest)
      ∙ ap (λ word. emitted (after_colon word))
          (name_of_word (codes "soap:Envelope") (codes "xmlns:soap=\"" ++ rest) refl)

  module _ (tostring : Element → List ℕ) where
    chosen-IsRooted :
        (version : SoapVersion) (headers : Option Element) (body name sent : List ℕ) (b : Bool)
        → root_element_name is_space body ≡ emitted name
        → same name (codes "Envelope") ≡ b
        → (if b then emitted body else emitted (wrapped is_space tostring version headers body))
          ≡ emitted sent
        → IsRooted is_space sent
    chosen-IsRooted version headers body name sent true read found h =
        subst (IsRooted is_space) (emitted_injective h)
          (read ∙ ap emitted (same_sound name (codes "Envelope") found))
    chosen-IsRooted version headers body name sent false read other h =
        subst (IsRooted is_space) (emitted_injective h) (
          opened-IsRooted (
            codes (envelope_namespace version)
            ++ (codes "\">"
                ++ (header_text is_space tostring headers
                    ++ (codes "<soap:Body>" ++ (body ++ codes "</soap:Body></soap:Envelope>"))))))

    enclosed-IsRooted :
        (version : SoapVersion) (headers : Option Element) (body : List ℕ) (name : Emitted)
        (sent : List ℕ)
        → root_element_name is_space body ≡ name
        → enclosed is_space tostring version headers body name ≡ emitted sent
        → IsRooted is_space sent
    enclosed-IsRooted version headers body (refused e) sent read h = cc
    enclosed-IsRooted version headers body (emitted name) sent read h =
        chosen-IsRooted version headers body name sent (same name (codes "Envelope")) read refl h

    -- Where `is_space` tells white space apart among the characters below 128, what is sent for a
    -- body is an envelope: the name of its root element reads as `Envelope`, whatever the body, the
    -- version and the header block are. A call whose body is that text sends it as it is, under every
    -- version and header block.
    pub build_envelope-IsRooted :
        (body : Body) (version : SoapVersion) (headers : Option Element) (sent : List ℕ)
        → build_envelope is_space tostring body version headers ≡ emitted sent
        → IsRooted is_space sent
          × ((other : SoapVersion) (block : Option Element)
              → build_envelope is_space tostring (written sent) other block ≡ emitted sent)
    unfolding build_envelope
    build_envelope-IsRooted body version headers sent h =
        let rooted =
          enclosed-IsRooted version headers (body_text is_space tostring body)
            (root_element_name is_space (body_text is_space tostring body)) sent refl h in
        (rooted, λ other block. ap (enclosed is_space tostring other block sent) rooted)
