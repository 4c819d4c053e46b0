-- ===== src/Ftp/Sessions.antt =====
-- One FTP call (asyncio_gateway/logic/ftp_client.py): `_validate_request`, `_tls_value` with
-- `tls_context_for` and the part of `get_ssl_config` (asyncio_gateway/helpers/internal/filters_helper.py)
-- that it reaches, `_explicit_ftps_context`, `_run_command`, `_operands` and `handle_request`, as the
-- list of what happens. aioftp, the breaker and the building of a context are parameters.
pub mod Secured
use async_gateway.Prelude.{
  ℕ, String, Bool, true, false, not, Option, none, some, List, [], ◌∷◌, ◌==◌, contains, is_none,
  if◌then◌else◌,
}
use async_gateway.Values.{Value, none_value, text, truthy}
use async_gateway.Values.Texts.{Texts}
use async_gateway.Errors.{ErrorClass, unsupported_verb_error, tls_error}
use async_gateway.Redirects.{Attempt, done, broke, Broken, validated_verb, resolve_verb}
use async_gateway.Redirects as Verbs
use async_gateway.Sftp.Jobs.{filled_text, optional_path}
use async_gateway.Ftp.{FtpRequest, is_explicit}
use async_gateway.Ftp.Failures.{Fault, gateway, foreign, Trouble, fault, Thrown, thrown_for}

abbrev pub removing_commands : List String
removing_commands = "remove" ∷ "remove_file" ∷ "remove_directory" ∷ []

abbrev pub ftp_commands : List String
ftp_commands = "download" ∷ "upload" ∷ removing_commands

-- What a call has been checked to ask for.
pub record Job : Type 0 where
  pub command : String
  pub server_path : String
  pub client_path : Option String

abbrev text_or_verb : Texts → Value → Attempt String
text_or_verb t (text s) = elim (validated_verb t ftp_commands s) [
  | broke e ↦ broke e
  | done n ↦ done s
]
text_or_verb t _ = broke (Verbs.gateway unsupported_verb_error none)

-- `_validate_request`
unfoldable pub validate_request : Texts → FtpRequest → Attempt Job
unfolding validated_verb
validate_request t r = elim (filled_text r.server_path) [
  | broke e ↦ broke e
  | done server ↦ elim (optional_path r.client_path) [
    | broke e ↦ broke e
    | done client ↦ elim (text_or_verb t r.command_) [
      | broke e ↦ broke e
      | done command ↦
          done (record { command = command; server_path = server; client_path = client })
    ]
  ]
]

-- An `ssl.SSLContext`, and whether it verifies its peer.
pub record Context : Type 0 where
  pub id : ℕ
  pub verifies : Bool

-- What building a context from a certificate gives.
pub data Built : Type 0 where
  built : Context → Built
  unreadable : Built
  refused : ErrorClass → (status : Option ℕ) → Built

pub data Reply {ℓ} (A : Type ℓ) : Type ℓ where
  got : A → Reply A
  lost : Trouble → Reply A

pub data Operation : Type 0 where
  -- `write_into=True`
  two_paths : (command : String) (source destination : String) → Operation
  one_path : (command server_path : String) → Operation

pub data Request : Type 0 where
  operated : Operation → Request
  asked_stat : String → Request

-- `dialled` is the connection of a client that is not secured yet; `opened` is `aioftp`'s own context,
-- which connects with TLS or without, and logs in.
pub data Event : Type 0 where
  dialled logged_in closed quit : Event
  upgraded : Context → Event
  opened : Option Context → Event
  worked : List Request → Event

pub record World : Type 0 where
  pub default_context : Context
  -- a certificate that is a false value of the language, such as an empty tuple
  pub is_empty : ℕ → Bool
  pub build_context : ℕ → Built
  pub connect : Option Fault
  pub upgrade : Option Fault
  pub login : Option Fault
  pub enter : Option Fault
  pub leave : Option Fault
  pub offers : String → Bool
  pub run : Operation → Option Trouble
  pub stat : String → Reply Value
  pub being_cancelled : Bool

-- `_tls_value`: a context, plain text, or an error.
pub data Tls : Type 0 where
  secured : Context → Tls
  clear : Tls
  unsafe : ErrorClass → (status : Option ℕ) → Tls

-- `tls_context_for`, of a context in the configuration.
abbrev pub checked_context : Built → Tls
checked_context unreadable = unsafe tls_error none
checked_context (refused class status) = unsafe class status
checked_context (built context) =
    if context.verifies then secured context else unsafe tls_error none

unfoldable pub tls_value : FtpRequest → World → Tls
tls_value r w = if not (truthy r.verify_ssl) then clear else elim r.certificate [
  | none ↦ secured w.default_context
  | some certificate ↦
      if w.is_empty certificate
      then secured w.default_context
      else checked_context (w.build_context certificate)
]

abbrev pub broken_fault : Broken → Fault
broken_fault (Verbs.gateway class status) = gateway class status
broken_fault (Verbs.foreign n) = foreign n
broken_fault _ = foreign 0

module _ (t : Texts) (w : World) where
  -- `LOCAL_IS_SOURCE` and `_operands`
  abbrev pub operation_of : String → Job → Option String → Operation
  operation_of command job none = one_path command job.server_path
  operation_of command job (some local) =
      if command == "upload"
      then two_paths command local job.server_path
      else two_paths command job.server_path local

  abbrev pub after_run :
      String → Job → Operation → Option Trouble → List Request × Reply (Option Value)
  after_run command job operation (some trouble) = (operated operation ∷ [], lost trouble)
  after_run command job operation none =
      if contains removing_commands command then (operated operation ∷ [], got none) else (
        operated operation ∷ asked_stat job.server_path ∷ [],
        elim (w.stat job.server_path) [ lost e ↦ lost e | got stats ↦ got (some stats) ],
      )

  -- `_run_command`
  unfoldable pub run_command : Job → List Request × Reply (Option Value)
  unfolding resolve_verb
  run_command job = elim (resolve_verb t w.offers ftp_commands job.command) [
    | broke e ↦ ([], lost (fault (broken_fault e)))
    | done command ↦
        let operation = operation_of command job job.client_path in
        after_run command job operation (w.run operation)
  ]

  -- The end of the `async with`: an error of it takes the place of what the body gave.
  abbrev pub left : Option Fault → Reply (Option Value) → Reply (Option Value)
  left (some e) reply = lost (fault e)
  left none reply = reply

  -- From a client that is logged in.
  abbrev pub inside : List Request × Reply (Option Value) → List Event × Reply (Option Value)
  inside (requests, reply) = (worked requests ∷ quit ∷ [], left w.leave reply)

  -- `_explicit_ftps_context` around the command.
  unfoldable pub explicit_session : Context → Job → List Event × Reply (Option Value)
  unfolding run_command
  explicit_session context job =
      let (body, reply) = inside (run_command job) in
      elim w.connect [
        | some e ↦ (dialled ∷ closed ∷ [], lost (fault e))
        | none ↦ elim w.upgrade [
          | some e ↦ (dialled ∷ closed ∷ [], lost (fault e))
          | none ↦ elim w.login [
            | some e ↦ (dialled ∷ upgraded context ∷ logged_in ∷ closed ∷ [], lost (fault e))
            | none ↦ (dialled ∷ upgraded context ∷ logged_in ∷ body, reply)
          ]
        ]
      ]

  unfoldable pub opened_session : Option Context → Job → List Event × Reply (Option Value)
  unfolding run_command
  opened_session tls job =
      let (body, reply) = inside (run_command job) in
      elim w.enter [ some e ↦ ([], lost (fault e)) | none ↦ (opened tls ∷ body, reply) ]

  -- The choice of the session.
  abbrev pub session_for : Bool → Tls → Job → List Event × Reply (Option Value)
  session_for is_explicit (unsafe class status) job = ([], lost (fault (gateway class status)))
  session_for true clear job = ([], lost (fault (gateway tls_error none)))
  session_for false clear job = opened_session none job
  session_for true (secured context) job = explicit_session context job
  session_for false (secured context) job = opened_session (some context) job

pub data Handled : Type 0 where
  answered : Job → (file_stats : Option Value) → Handled
  thrown : Thrown → Handled

abbrev pub reported : World → Job → Reply (Option Value) → Handled
reported w job (got stats) = answered job stats
reported w job (lost trouble) = thrown (thrown_for w.being_cancelled trouble)

abbrev pub handled : Texts → FtpRequest → World → Attempt Job → List Event × Handled
handled t r w (broke e) = ([], thrown (thrown_for false (fault (broken_fault e))))
handled t r w (done job) =
    let (events, reply) = session_for t w (is_explicit r.tls_mode) (tls_value r w) job in
    (events, reported w job reply)

-- `handle_request`
unfoldable pub handle_request : Texts → FtpRequest → World → List Event × Handled
unfolding validate_request tls_value thrown_for explicit_session opened_session
handle_request t r w = handled t r w (validate_request t r)
