-- ===== src/Response.antt =====
-- src/uds.rs: what a service call returns, and how it fails.
mod Services
mod Dtc
pub use Services.*
pub use Dtc.*
use uds_rs.Base.{ℕ, List, [], ◌∷◌, Result, ok, err, ◌>>=◌, ◌!=◌, if◌then◌else◌}
use uds_rs.NumEnum.{TryFrom, variant, no_variant}
use uds_rs.Definitions.{NegativeResponseCode}
use uds_rs.Communication.{UdsCommunicationError}

pub data DataFormat (T : Type 0) : Type 0 where
  parsed : T → DataFormat T
  raw : List ℕ → DataFormat T

pub data UdsResponse : Type 0 where
  ecu_reset : DataFormat EcuResetResponse → UdsResponse
  read_data_by_identifier : DataFormat ReadDataByIdentifierResponse → UdsResponse
  read_memory_by_address : DataFormat ReadMemoryByAddressResponse → UdsResponse
  read_dtc_information : DataFormat ReadDtcInformationResponse → UdsResponse
  clear_diagnostic_information : UdsResponse
  write_data_by_identifier : DataFormat WriteDataByIdentifierResponse → UdsResponse
  diagnostic_session_control : DataFormat DiagnosticSessionControlResponse → UdsResponse

pub record NrcData : Type 0 where
  pub rejected_sid : ℕ
  pub nrc : NegativeResponseCode

pub data UdsError : Type 0 where
  sid_mismatch : (expected received : ℕ) (raw_message : List ℕ) → UdsError
  did_mismatch : (expected received : ℕ) (raw_message : List ℕ) → UdsError
  invalid_length : (raw_message : List ℕ) → UdsError
  nrc : NrcData → UdsError
  unknown_nrc : (rejected_sid unknown : ℕ) → UdsError
  response_empty : UdsError
  unsupported_subfunction : (unsupported : ℕ) → UdsError
  invalid_argument : UdsError
  response_incorrect : (raw_message : List ℕ) → UdsError
  not_implemented : UdsError
  request_empty : UdsError
  communication_error : UdsCommunicationError → UdsError

-- `?` on an error of the communication layer.
abbrev pub from_communication_error : UdsCommunicationError → UdsError
from_communication_error e = UdsError.communication_error e

abbrev pub EcuResponseResult : Type 0
EcuResponseResult = Result UdsResponse UdsError

-- `*response_iter.next().ok_or(e)?`: the byte, and what the iterator has left.
abbrev pub next_or : UdsError → List ℕ → Result (ℕ × List ℕ) UdsError
next_or e [] = err e
next_or e (b ∷ rest) = ok (b, rest)

-- The beginning of every parse function: the first byte is the expected SID, or the response is
-- refused. What is left of the iterator is returned.
unfoldable pub check_sid : UdsError → ℕ → List ℕ → Result (List ℕ) UdsError
check_sid empty expected raw_response = do
  (sid, rest) ← next_or empty raw_response
  if sid != expected then err (sid_mismatch expected sid raw_response) else ok rest

-- `.map_err(|_| UdsError::ResponseIncorrect { .. })?` on a conversion from u8.
abbrev pub or_incorrect : {A : Type 0} → List ℕ → TryFrom A → Result A UdsError
or_incorrect raw_response (variant a) = ok a
or_incorrect raw_response (no_variant _) = err (response_incorrect raw_response)
