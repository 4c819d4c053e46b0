-- ===== src/Sftp/Sessions/Contained.antt =====
-- What an SFTP call writes, and what a returned envelope means (asyncio_gateway/logic/sftp_client.py).
use async_gateway.Prelude.{◌≡◌, String, false, Option, none, some, List, contains, All}
use async_gateway.Values.{Value, none_value, text}
use async_gateway.Values.Texts.{Texts}
use async_gateway.Sftp.{SftpRequest}
use async_gateway.Sftp.Jobs.{Job, downloading_modes}
use async_gateway.Sftp.Failures.{Reply}
use async_gateway.Sftp.Sessions.{
  Attrs, Operation, download, two_paths, one_path, Event, operated, World, Handled, answered,
  thrown,
}
use async_gateway.Sftp.Sessions.Operations.{RanOnce, RepliesOnce}

-- What the options say of the local path of a job.
abbrev LocalIs : Option String → Value → Type 0
LocalIs none given = given ≡ none_value
LocalIs (some local) given = given ≡ text local

-- With a local path, a download goes through the contained writer: its base and its operand are the
-- caller's path made absolute, and its budget is the client's. A method of the client that is given a
-- local path is none of a download, and one that is given none has the remote path alone.
abbrev pub StaysInside : World → SftpRequest → Operation → Type 0
StaysInside w r (download mode remote local base overwrite budget options) =
    (given : String) × (r.local_path ≡ text given)
    × (base ≡ w.absolute given)
    × (local ≡ base)
    × (overwrite ≡ r.overwrite)
    × (budget ≡ r.max_response_bytes)
StaysInside w r (two_paths mode source destination options) =
    contains downloading_modes mode ≡ false
StaysInside w r (one_path mode remote options) = r.local_path ≡ none_value

abbrev pub IsContained : World → SftpRequest → Event → Type 0
IsContained w r (operated operation) = StaysInside w r operation
IsContained w r _ = Unit

module _ (t : Texts) (r : SftpRequest) (w : World) (job : Job) where
  -- What a session does, and what its end means.
  abbrev Sound : List Event × Reply (Attrs × Option (List String)) → Type 0
  Sound s = All (IsContained w r) s.0 × RepliesOnce w s.0 s.1

abbrev pub Meant : World → List Event × Handled → Type 0
Meant w (events, answered details) = RanOnce w events
Meant w (events, thrown e) = Unit
