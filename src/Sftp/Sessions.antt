-- ===== src/Sftp/Sessions.antt =====
-- One SFTP call (asyncio_gateway/logic/sftp_client.py): `_run_session`,
-- `_run_operation`, `_operands`, `file_stats_for` and `handle_request`, as the
-- list of what the server is asked. asyncssh, the breaker and the local file system are parameters;
-- the additional arguments are a mapping of texts.
pub mod Operations
pub mod Contained
use async_gateway.Prelude.{
  ℕ, String, Bool, true, false, not, ◌&&◌, ◌||◌, Option, none, some, List, [], ◌∷◌, ◌++◌, ◌==◌, eqb,
  Dict, lookup, put, contains, is_some, if◌then◌else◌,
}
use async_gateway.Values.{Value, none_value, text, bool, dict, fields}
use async_gateway.Values.Texts.{Texts}
use async_gateway.Errors.{
  ErrorClass, configuration_error, host_key_error, circuit_open_error, sftp_status_error,
  gateway_timeout_error, dns_error, connect_error, local_write_error, transport_error,
}
use async_gateway.Redirects.{Attempt, done, broke, Broken, validated_verb, resolve_verb}
use async_gateway.Redirects as Verbs
use async_gateway.Sftp.{SftpRequest, KnownHosts}
use async_gateway.Sftp.Jobs.{
  Job, sftp_modes, recursing_modes, downloading_modes, local_is_source, validate_mode,
}
use async_gateway.Sftp.Failures.{
  Trouble, fault, Reply, got, lost, broken_fault, Thrown, as_is, thrown_for,
}

-- `SFTPAttrs`: the type, and the fields that it has.
pub record Attrs : Type 0 where
  pub file_type : ℕ
  pub known : Dict Value

pub data Operation : Type 0 where
  -- `contained_download` under a base, with the budget
  download :
      (mode remote local base : String) (overwrite : Bool) (budget : ℕ) (options : Dict Value)
      → Operation
  -- the client's own method
  two_paths :
      (mode : String) (source destination : Option String) (options : Dict Value) → Operation
  one_path : (mode remote : String) (options : Dict Value) → Operation

pub data Event : Type 0 where
  connected : KnownHosts → Event
  operated : Operation → Event
  inspected listed : String → Event

-- The server and the host: what each request meets.
pub record World : Type 0 where
  pub connect : Option Trouble
  pub offers : String → Bool
  pub is_directory : String → Bool
  -- `str(Path(path).absolute())`
  pub absolute : String → String
  pub run : Operation → Option Trouble
  pub lstat : String → Reply Attrs
  pub listdir : String → Reply (List String)

-- `FILEXFER_TYPE_DIRECTORY`
abbrev pub is_directory_type : ℕ → Bool
is_directory_type n = eqb n 2

abbrev as_options : Value → Dict Value
as_options (dict fs) = fields fs
as_options _ = []

-- `local_base` and `local_operand`: one absolutisation of the local path.
abbrev pub local_base : World → String → String
local_base w path = w.absolute path

abbrev pub local_operand : World → String → String
local_operand w path = local_base w path

abbrev local_side : World → Option String → Option String
local_side w none = none
local_side w (some path) = some (local_operand w path)

module _ (t : Texts) (r : SftpRequest) (w : World) where
  -- `_operands`
  unfoldable pub operands : String → Job → Option String × Option String
  operands mode job =
      if local_is_source mode
      then (local_side w job.local_path, some job.remote_path)
      else (some job.remote_path, local_side w job.local_path)

  abbrev pub chosen : String → Job → Dict Value → Option String → Operation
  chosen mode job options none = one_path mode job.remote_path options
  chosen mode job options (some local) =
      if contains downloading_modes mode
      then download mode job.remote_path (local_operand w local) (local_base w local) r.overwrite
          r.max_response_bytes options
      else (let (source, destination) = operands mode job in
          two_paths mode source destination options)

  abbrev pub options_for : Bool → String → Dict Value
  options_for directory mode =
      if directory && contains recursing_modes mode
      then put "recurse" (bool true) (as_options r.additional_arguments)
      else as_options r.additional_arguments

  -- With the client's method of the mode, if it has one.
  abbrev pub asked_for : Job → Bool → Attempt String → List Event × Option Trouble
  asked_for job directory (broke e) = ([], some (fault (broken_fault e)))
  asked_for job directory (done mode) =
      let operation = chosen mode job (options_for directory mode) job.local_path in
      (operated operation ∷ [], w.run operation)

  -- `_run_operation`: what the server is asked, and what is raised.
  unfoldable pub run_operation : Job → Bool → List Event × Option Trouble
  unfolding resolve_verb operands
  run_operation job directory =
      asked_for job directory (resolve_verb t w.offers sftp_modes job.mode)

  -- `lstat`, and `listdir` of a directory.
  unfoldable pub inspect : String → List Event × Reply (Attrs × Option (List String))
  inspect remote = elim (w.lstat remote) [
    | lost trouble ↦ (inspected remote ∷ [], lost trouble)
    | got attrs ↦
        if is_directory_type attrs.file_type
        then (elim (w.listdir remote) [
          | lost trouble ↦ (inspected remote ∷ listed remote ∷ [], lost trouble)
          | got names ↦ (inspected remote ∷ listed remote ∷ [], got (attrs, some names))
        ])
        else (inspected remote ∷ [], got (attrs, none))
  ]

  abbrev local_directory : Option String → Bool
  local_directory none = false
  local_directory (some local) = w.is_directory local

  abbrev pub after_operation :
      List Event × Option Trouble
      → List Event × Reply (Attrs × Option (List String))
      → List Event × Reply (Attrs × Option (List String))
  after_operation (asked, some e) seen = (asked, lost e)
  after_operation (asked, none) (looked, reply) = (asked ++ looked, reply)

  -- The operation first, then the remote path as it is now.
  unfoldable pub upload : Job → List Event × Reply (Attrs × Option (List String))
  unfolding run_operation inspect
  upload job =
      after_operation (run_operation job (local_directory job.local_path)) (inspect job.remote_path)

  abbrev pub ending :
      List Event
      → Attrs × Option (List String)
      → List Event × Option Trouble
      → List Event × Reply (Attrs × Option (List String))
  ending looked found (asked, some e) = (looked ++ asked, lost e)
  ending looked found (asked, none) = (looked ++ asked, got found)

  abbrev pub after_inspection :
      Job
      → List Event × Reply (Attrs × Option (List String))
      → List Event × Reply (Attrs × Option (List String))
  after_inspection job (looked, lost e) = (looked, lost e)
  after_inspection job (looked, got (attrs, names)) =
      ending looked (attrs, names) (run_operation job (is_directory_type attrs.file_type))

  -- The remote path as it was, then the operation.
  unfoldable pub fetch : Job → List Event × Reply (Attrs × Option (List String))
  unfolding run_operation inspect
  fetch job = after_inspection job (inspect job.remote_path)

  abbrev pub opened : Job → Option Trouble → List Event × Reply (Attrs × Option (List String))
  opened job (some trouble) = ([], lost trouble)
  opened job none =
      let (events, reply) =
        if local_is_source (t.lower (t.strip job.mode)) then upload job else fetch job in
      (connected r.connect_options.known_hosts ∷ events, reply)

  -- `_run_session`
  unfoldable pub run_session : Job → List Event × Reply (Attrs × Option (List String))
  unfolding upload fetch
  run_session job = opened job w.connect

abbrev pub file_stat_fields : List String
file_stat_fields =
    "size" ∷ "permissions" ∷ "uid" ∷ "gid" ∷ "owner" ∷ "group" ∷ "atime" ∷ "mtime" ∷ []

-- `FILE_TYPE_NAMES.get(…, UNKNOWN_FILE_TYPE)`
abbrev pub file_type_name : ℕ → String
file_type_name n =
    if eqb n 1
    then "file"
    else if eqb n 2
    then "directory"
    else if eqb n 3
    then "symlink"
    else if eqb n 4
    then "special"
    else "unknown"

abbrev stats_in : List String → Dict Value → Dict Value
stats_in [] known = []
stats_in (name ∷ names) known =
    (name, elim (lookup name known) [ none ↦ none_value | some v ↦ v ]) ∷ stats_in names known

unfoldable pub file_stats_for : Attrs → Dict Value
file_stats_for attrs =
    ("type", text (file_type_name attrs.file_type)) ∷ stats_in file_stat_fields attrs.known

pub record Details : Type 0 where
  pub job : Job
  pub file_stats : Dict Value
  pub files : Option (List String)

pub data Handled : Type 0 where
  answered : Details → Handled
  thrown : Thrown → Handled

abbrev pub reported : Job → Reply (Attrs × Option (List String)) → Handled
reported job (lost trouble) = thrown (thrown_for trouble)
reported job (got (attrs, names)) =
    answered (record { job = job; file_stats = file_stats_for attrs; files = names })

abbrev pub handled : Texts → SftpRequest → World → Attempt Job → List Event × Handled
handled t r w (broke e) = ([], thrown (as_is (broken_fault e)))
handled t r w (done job) =
    let (events, reply) = run_session t r w job in (events, reported job reply)

-- `handle_request`
unfoldable pub handle_request : Texts → SftpRequest → World → List Event × Handled
unfolding validate_mode run_session thrown_for file_stats_for
handle_request t r w = handled t r w (validate_mode t r)
