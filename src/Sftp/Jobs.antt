-- ===== src/Sftp/Jobs.antt =====
-- What an SFTP call asks for (asyncio_gateway/logic/sftp_client.py): its modes and `_validate_mode`.
use async_gateway.Prelude.{
  String, Bool, Option, none, some, List, [], ◌∷◌, ◌==◌, contains, if◌then◌else◌,
}
use async_gateway.Values.{Value, none_value, text}
use async_gateway.Values.Texts.{Texts}
use async_gateway.Errors.{configuration_error}
use async_gateway.Redirects.{Attempt, done, broke, Broken, validated_verb, resolve_verb}
use async_gateway.Redirects as Verbs
use async_gateway.Sftp.{SftpRequest}

abbrev pub sftp_modes : List String
sftp_modes = "get" ∷ "put" ∷ "remove" ∷ []

abbrev pub recursing_modes : List String
recursing_modes = "copy" ∷ "get" ∷ "mcopy" ∷ "mget" ∷ "mput" ∷ "put" ∷ []

abbrev pub downloading_modes : List String
downloading_modes = "get" ∷ "mget" ∷ []

-- `LOCAL_IS_SOURCE.get(mode, False)`
abbrev pub local_is_source : String → Bool
local_is_source mode = contains ("put" ∷ "mput" ∷ []) mode

-- What a call has been checked to ask for.
pub record Job : Type 0 where
  pub mode : String
  pub remote_path : String
  pub local_path : Option String

abbrev pub refused : Broken
refused = Verbs.gateway configuration_error none

abbrev pub filled_text : Value → Attempt String
filled_text (text s) = if s == "" then broke refused else done s
filled_text _ = broke refused

abbrev pub optional_path : Value → Attempt (Option String)
optional_path none_value = done none
optional_path given = elim (filled_text given) [ broke e ↦ broke e | done s ↦ done (some s) ]

abbrev pub with_paths : String → Attempt String → Attempt (Option String) → Attempt Job
with_paths mode (broke e) local = broke e
with_paths mode (done remote) (broke e) = broke e
with_paths mode (done remote) (done local) =
    done (record { mode = mode; remote_path = remote; local_path = local })

abbrev pub with_mode : Texts → SftpRequest → Attempt String → Attempt Job
with_mode t r (broke e) = broke e
with_mode t r (done mode) = elim (validated_verb t sftp_modes mode) [
  | broke e ↦ broke e
  | done name ↦ with_paths mode (filled_text r.remote_path) (optional_path r.local_path)
]

unfoldable pub validate_mode : Texts → SftpRequest → Attempt Job
unfolding validated_verb
validate_mode t r = with_mode t r (filled_text r.mode_)
