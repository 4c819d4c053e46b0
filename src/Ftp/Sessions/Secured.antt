-- ===== src/Ftp/Sessions/Secured.antt =====
-- FTP and the caller's password (asyncio_gateway/logic/ftp_client.py).
use async_gateway.Prelude.{
  ℕ, suc, ◌≡◌, refl, inl, inr, Option-cases, subst, String, Bool, true, false, not, ◌||◌, Option,
  none, some, List, [], ◌∷◌, Dict, lookup, arith, All, is_some,
}
use async_gateway.Prelude.Int.{pos}
use async_gateway.Values.{Value, bool, int, truthy, ok}
use async_gateway.Values.Checked.{bind-ok, ok_injective}
use async_gateway.Values.Texts.{Texts}
use async_gateway.Redirects.{Attempt, done, broke}
use async_gateway.Http.{value}
use async_gateway.Http.Limits.{validated_max_response_bytes}
use async_gateway.Sftp.{value_or, is_true}
use async_gateway.Ftp.{
  TlsMode, credentials_of, tls_mode_in, agreed_tls, is_explicit, FtpRequest, new_ftp_request,
}
use async_gateway.Ftp.Sessions.{
  Job, Context, Event, dialled, logged_in, closed, quit, upgraded, opened, World, Tls, secured,
  clear, unsafe, tls_value, explicit_session, opened_session, session_for, handled, handle_request,
  validate_request,
}

-- A session that is not protected is opened only where the caller turned verification off; a context
-- verifies its peer.
abbrev pub IsProtected : FtpRequest → Event → Type 0
IsProtected r (opened none) = (truthy r.verify_ssl ≡ false) × (r.tls_mode ≡ none)
IsProtected r (opened (some context)) = context.verifies ≡ true
IsProtected r (upgraded context) = context.verifies ≡ true
IsProtected r _ = Unit

-- A password is sent on a connection that was dialled and is not upgraded.
abbrev pub exposes : Bool → List Event → Bool
exposes is_secured [] = false
exposes is_secured (logged_in ∷ events) = not is_secured || exposes is_secured events
exposes is_secured (upgraded context ∷ events) = exposes true events
exposes is_secured (_ ∷ events) = exposes is_secured events

abbrev pub begun : List Event → ℕ
begun [] = 0
begun (dialled ∷ events) = suc (begun events)
begun (opened tls ∷ events) = suc (begun events)
begun (_ ∷ events) = begun events

abbrev pub ended : List Event → ℕ
ended [] = 0
ended (closed ∷ events) = suc (ended events)
ended (quit ∷ events) = suc (ended events)
ended (_ ∷ events) = ended events

abbrev pub IsSafe : FtpRequest → List Event → Type 0
IsSafe r events =
    All (IsProtected r) events × (exposes false events ≡ false) × (begun events ≡ ended events)

-- A named mode goes with verification.
abbrev pub IsAgreed : FtpRequest → Type 0
IsAgreed r = (not (is_some r.tls_mode) || truthy r.verify_ssl) ≡ true

is_true-truthy : (v : Value) → is_true v ≡ true → truthy v ≡ true
unfolding truthy
is_true-truthy v h = ground arith

agreed_tls-IsAgreed :
    (named mode : Option TlsMode) (verify_ssl : Value) (certificate : Option ℕ)
    → agreed_tls named verify_ssl certificate ≡ ok mode
    → (not (is_some mode) || is_true verify_ssl) ≡ true
unfolding agreed_tls
agreed_tls-IsAgreed named mode verify_ssl certificate h = ground arith

is_some-none {ℓ} : {A : Type ℓ} (o : Option A) → is_some o ≡ false → o ≡ none
is_some-none none h = refl
is_some-none (some a) h = cc

new_ftp_request-IsAgreed :
    (info : Dict Value) (url : String) (certificate : Option ℕ) (login password : Value)
    (r : FtpRequest)
    → new_ftp_request info url certificate login password ≡ ok r
    → IsAgreed r
unfolding new_ftp_request
new_ftp_request-IsAgreed info url certificate login password r h =
    let verify = value_or "verify_ssl" (bool true) info in
    let (pair, e1, h1) = bind-ok (credentials_of login password) _ r h in
    let (budget, e2, h2) =
      bind-ok
        (validated_max_response_bytes
          (value (value_or "max_response_bytes" (int (pos 67108864)) info)))
        _ r h1 in
    let (named, e3, h3) = bind-ok (tls_mode_in (lookup "tls_mode" info)) _ r h2 in
    let (mode, e4, h4) = bind-ok (agreed_tls named verify certificate) _ r h3 in
    let agreed = agreed_tls-IsAgreed named mode verify certificate e4 in
    subst IsAgreed (ok_injective h4) (ground (arith, agreed, is_true-truthy verify))

module _ (t : Texts) (r : FtpRequest) (w : World) (job : Job) where
  explicit_session-IsSafe :
      (context : Context) → context.verifies ≡ true → IsSafe r (explicit_session t w context job).0
  unfolding explicit_session
  explicit_session-IsSafe context h = ground arith

  opened_session-IsSafe :
      (tls : Option Context) → IsProtected r (opened tls) → IsSafe r (opened_session t w tls job).0
  unfolding opened_session
  opened_session-IsSafe tls h = elim (Option-cases w.enter) [
    | inl none_ ↦ rw none_ ((h, (tt, (tt, tt))), refl, refl)
    | inr (e, some_) ↦ rw some_ (tt, refl, refl)
  ]

  abbrev Sound : Tls → Type 0
  Sound (secured context) = context.verifies ≡ true
  Sound clear = truthy r.verify_ssl ≡ false
  Sound (unsafe class status) = Unit

  tls_value-Sound : w.default_context.verifies ≡ true → Sound (tls_value r w)
  unfolding tls_value
  tls_value-Sound h = ground arith

  not_named : IsAgreed r → truthy r.verify_ssl ≡ false → r.tls_mode ≡ none
  not_named agreed h = is_some-none r.tls_mode (ground (arith, agreed, h))

  session_for-IsSafe :
      (b : Bool) (tls : Tls) → IsAgreed r → Sound tls → IsSafe r (session_for t w b tls job).0
  session_for-IsSafe b (unsafe class status) agreed h = (tt, refl, refl)
  session_for-IsSafe true clear agreed h = (tt, refl, refl)
  session_for-IsSafe false clear agreed h = opened_session-IsSafe none (h, not_named agreed h)
  session_for-IsSafe true (secured context) agreed h = explicit_session-IsSafe context h
  session_for-IsSafe false (secured context) agreed h = opened_session-IsSafe (some context) h

handled-IsSafe :
    (t : Texts) (r : FtpRequest) (w : World) (a : Attempt Job)
    → IsAgreed r
    → w.default_context.verifies ≡ true
    → IsSafe r (handled t r w a).0
handled-IsSafe t r w (broke e) agreed h = (tt, refl, refl)
handled-IsSafe t r w (done job) agreed h =
    session_for-IsSafe t r w job (is_explicit r.tls_mode) (tls_value r w) agreed
      (tls_value-Sound t r w job h)

-- Where the system's default context verifies its peer, a client that is constructed opens a session
-- without TLS only if the caller turned `verify_ssl` off and named no mode; every context that it uses
-- verifies the server; the explicit mode sends the password after the upgrade alone; and each
-- connection that a client of the library begins is closed or quit once, whatever fails.
pub handle_request-IsSafe :
    (info : Dict Value) (url : String) (certificate : Option ℕ) (login password : Value)
    (r : FtpRequest) (t : Texts) (w : World)
    → new_ftp_request info url certificate login password ≡ ok r
    → w.default_context.verifies ≡ true
    → IsSafe r (handle_request t r w).0
unfolding handle_request
handle_request-IsSafe info url certificate login password r t w built_ h =
    handled-IsSafe t r w (validate_request t r)
      (new_ftp_request-IsAgreed info url certificate login password r built_) h
