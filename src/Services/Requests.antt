-- ===== src/Services/Requests.antt =====
-- The requests that the compose functions make: bytes behind the SID of the service.
use uds_rs.Base.{ℕ, ◌≡◌, refl, List, [], ◌∷◌, All, All-append, IsByte, as_u8, shr, arith}
use uds_rs.Definitions.{ServiceIdentifier, service_identifier_as_u8}
use uds_rs.Response.{ResetType, reset_type_as_u8, SubFunction, sub_function_as_u8}
use uds_rs.EcuReset.{compose_ecu_reset_request}
use uds_rs.ClearDiagnosticInformation.{compose_clear_diagnostic_information_request}
use uds_rs.WriteDataByIdentifier.{compose_write_data_by_identifier_request}
use uds_rs.DiagnosticSessionControl.{compose_diagnostic_session_control_request}
use uds_rs.ReadDataByIdentifier.{compose_read_data_by_identifier_request}
use uds_rs.ReadDataByIdentifier.Request.{
  identifiers_bytes, compose_read_data_by_identifier_request_lem,
}
use uds_rs.ReadMemoryByAddress.{formulate_request}
use uds_rs.ReadDtcInformation.{
  compose_report_number_of_dtc_by_status_mask_request, compose_report_dtc_snapshot_request,
  compose_report_dtc_ext_data_by_dtc_number_request, compose_request_short,
}

-- The SID of the service, and then bytes.
abbrev pub Requests : ServiceIdentifier → List ℕ → Type 0
Requests service request =
    (args : List ℕ) × (request ≡ service_identifier_as_u8 service ∷ args) × All IsByte args

as_u8-IsByte : (n : ℕ) → IsByte (as_u8 n)
as_u8-IsByte n = omega arith

sub_function-IsByte : (f : SubFunction) → IsByte (sub_function_as_u8 f)
sub_function-IsByte f = ground arith

reset_type-IsByte : (t : ResetType) → IsByte (reset_type_as_u8 t)
reset_type-IsByte t = ground arith

identifiers_bytes-IsByte : (is : List ℕ) → All IsByte (identifiers_bytes is)
identifiers_bytes-IsByte [] = tt
identifiers_bytes-IsByte (i ∷ is) =
    (as_u8-IsByte (shr i 8), (as_u8-IsByte i, identifiers_bytes-IsByte is))

-- The three bytes of a DTC, and what follows them.
dtc-IsByte :
    (n : ℕ) (rest : List ℕ)
    → All IsByte rest
    → All IsByte (as_u8 (shr n 16) ∷ as_u8 (shr n 8) ∷ as_u8 n ∷ rest)
dtc-IsByte n rest h = (as_u8-IsByte (shr n 16), (as_u8-IsByte (shr n 8), (as_u8-IsByte n, h)))

pub ecu_reset-Requests :
    (t : ResetType) → Requests ServiceIdentifier.ecu_reset (compose_ecu_reset_request t)
unfolding compose_ecu_reset_request
ecu_reset-Requests t = (_, refl, (reset_type-IsByte t, tt))

pub session-Requests :
    (b : ℕ)
    → IsByte b
    → Requests ServiceIdentifier.diagnostic_session_control
        (compose_diagnostic_session_control_request b)
unfolding compose_diagnostic_session_control_request
session-Requests b h = (_, refl, (h, tt))

pub clear-Requests :
    (n : ℕ)
    → Requests ServiceIdentifier.clear_diagnostic_information
        (compose_clear_diagnostic_information_request n)
unfolding compose_clear_diagnostic_information_request
clear-Requests n = (_, refl, dtc-IsByte n [] tt)

pub write-Requests :
    (did : ℕ) (bytes : List ℕ)
    → All IsByte bytes
    → Requests ServiceIdentifier.write_data_by_identifier
        (compose_write_data_by_identifier_request did bytes)
unfolding compose_write_data_by_identifier_request
write-Requests did bytes h = (_, refl, (as_u8-IsByte (shr did 8), (as_u8-IsByte did, h)))

pub read-Requests :
    (dids : List ℕ)
    → Requests ServiceIdentifier.read_data_by_identifier
        (compose_read_data_by_identifier_request dids)
read-Requests dids =
    (_, compose_read_data_by_identifier_request_lem dids, identifiers_bytes-IsByte dids)

pub memory-Requests :
    (b : ℕ) (bytes bytes' : List ℕ)
    → IsByte b
    → All IsByte bytes
    → All IsByte bytes'
    → Requests ServiceIdentifier.read_memory_by_address (formulate_request b bytes bytes')
unfolding formulate_request
memory-Requests b bytes bytes' hb h h' = (_, refl, (hb, All-append IsByte bytes bytes' h h'))

pub mask-Requests :
    (f : SubFunction) (b : ℕ)
    → IsByte b
    → Requests ServiceIdentifier.read_dtc_information
        (compose_report_number_of_dtc_by_status_mask_request f b)
unfolding compose_report_number_of_dtc_by_status_mask_request
mask-Requests f b h = (_, refl, (sub_function-IsByte f, (h, tt)))

pub snapshot-Requests :
    (f : SubFunction) (n b : ℕ)
    → IsByte b
    → Requests ServiceIdentifier.read_dtc_information (compose_report_dtc_snapshot_request f n b)
unfolding compose_report_dtc_snapshot_request
snapshot-Requests f n b h = (_, refl, (sub_function-IsByte f, dtc-IsByte n (b ∷ []) (h, tt)))

pub ext_data-Requests :
    (f : SubFunction) (n b : ℕ)
    → IsByte b
    → Requests ServiceIdentifier.read_dtc_information
        (compose_report_dtc_ext_data_by_dtc_number_request f n b)
unfolding compose_report_dtc_ext_data_by_dtc_number_request
ext_data-Requests f n b h = (_, refl, (sub_function-IsByte f, dtc-IsByte n (b ∷ []) (h, tt)))

pub short-Requests :
    (f : SubFunction) → Requests ServiceIdentifier.read_dtc_information (compose_request_short f)
unfolding compose_request_short
short-Requests f = (_, refl, (sub_function-IsByte f, tt))

-- Whatever the numbers are that the compose functions cast, each of them makes a request of bytes that
-- begins with the SID of its service, provided that what it passes on as it is are bytes.
pub composes-Requests :
    (t : ResetType) (f : SubFunction) (b n did : ℕ) (dids bytes bytes' : List ℕ)
    → IsByte b
    → All IsByte bytes
    → All IsByte bytes'
    → Requests ServiceIdentifier.ecu_reset (compose_ecu_reset_request t)
      × Requests ServiceIdentifier.diagnostic_session_control
          (compose_diagnostic_session_control_request b)
      × Requests ServiceIdentifier.clear_diagnostic_information
          (compose_clear_diagnostic_information_request n)
      × Requests ServiceIdentifier.write_data_by_identifier
          (compose_write_data_by_identifier_request did bytes)
      × Requests ServiceIdentifier.read_data_by_identifier
          (compose_read_data_by_identifier_request dids)
      × Requests ServiceIdentifier.read_memory_by_address (formulate_request b bytes bytes')
      × Requests ServiceIdentifier.read_dtc_information
          (compose_report_number_of_dtc_by_status_mask_request f b)
      × Requests ServiceIdentifier.read_dtc_information (compose_report_dtc_snapshot_request f n b)
      × Requests ServiceIdentifier.read_dtc_information
          (compose_report_dtc_ext_data_by_dtc_number_request f n b)
      × Requests ServiceIdentifier.read_dtc_information (compose_request_short f)
composes-Requests t f b n did dids bytes bytes' hb h h' = (
  ecu_reset-Requests t,
  session-Requests b hb,
  clear-Requests n,
  write-Requests did bytes h,
  read-Requests dids,
  memory-Requests b bytes bytes' hb h h',
  mask-Requests f b hb,
  snapshot-Requests f n b hb,
  ext_data-Requests f n b hb,
  short-Requests f,
)
