-- ===== src/Session.antt =====
-- Sequences of calls on one client: the methods of `UdsClient` as actions, and the worlds that they
-- reach.
pub mod Actions
pub mod Reached
use uds_rs.Base.{ℕ, List, Option, ◌≡◌, Result, All, IsByte, IsU64}
use uds_rs.NumEnum.{TryFromPrimitive}
use uds_rs.Definitions.{negative_response_code_as_u8}
use uds_rs.Response.{
  UdsResponse, UdsError, ResetType, reset_type_as_u8, sub_function_as_u8, dtc_format_as_u8,
}
use uds_rs.Client.{Call, done, Tokio, UdsClient}
use uds_rs.EcuReset.{ecu_reset}
use uds_rs.ClearDiagnosticInformation.{clear_diagnostic_information}
use uds_rs.WriteDataByIdentifier.{write_data_by_identifier}
use uds_rs.DiagnosticSessionControl.{diagnostic_session_control}
use uds_rs.ReadDataByIdentifier.{read_data_by_identifier}
use uds_rs.ReadMemoryByAddress.{read_memory_by_address, read_memory_by_address_simplified}
use uds_rs.ReadDtcInformation.{
  report_number_of_dtc_by_status_mask, report_dtc_by_status_mask,
  report_dtc_snapshot_record_by_dtc_number, report_dtc_ext_data_record_by_dtc_number,
  report_most_recent_confirmed_dtc,
}

-- A method with its arguments.
pub data Action : Type 0 where
  reset : ResetType → Action
  change_session : ℕ → Action
  clear : ℕ → Action
  write : ℕ → List ℕ → Action
  read : List ℕ → Action
  read_memory : ℕ → List ℕ → List ℕ → Action
  read_memory_simplified : ℕ → ℕ → Option ℕ → Option ℕ → Action
  number_of_dtc dtcs : ℕ → Action
  snapshot extended : ℕ → ℕ → Action
  most_recent : Action

-- The arguments of type u8, `&[u8]` and u64 are such. Those that are cast may be any numbers.
abbrev pub IsValid : Action → Type 0
IsValid (change_session session) = IsByte session
IsValid (write did bytes) = All IsByte bytes
IsValid (read_memory identifier address size) =
    IsByte identifier × All IsByte address × All IsByte size
IsValid (read_memory_simplified address size address_len size_len) = IsU64 address × IsU64 size
IsValid (number_of_dtc mask) = IsByte mask
IsValid (dtcs mask) = IsByte mask
IsValid (snapshot dtc number) = IsByte number
IsValid (extended dtc number) = IsByte number
IsValid a = Unit

module _ ⦃nrcs : TryFromPrimitive negative_response_code_as_u8⦄
    ⦃resets : TryFromPrimitive reset_type_as_u8⦄
    ⦃sub_functions : TryFromPrimitive sub_function_as_u8⦄
    ⦃formats : TryFromPrimitive dtc_format_as_u8⦄ {W : Type 0} (tokio : Tokio W)
    (self : UdsClient W) where
  abbrev pub perform : Action → W → Call W UdsResponse
  perform (reset t) w = ecu_reset tokio self t w
  perform (change_session session) w = diagnostic_session_control tokio self session w
  perform (clear group) w = clear_diagnostic_information tokio self group w
  perform (write did bytes) w = write_data_by_identifier tokio self did bytes w
  perform (read dids) w = read_data_by_identifier tokio self dids w
  perform (read_memory identifier address size) w =
      read_memory_by_address tokio self identifier address size w
  perform (read_memory_simplified address size address_len size_len) w =
      read_memory_by_address_simplified tokio self address size address_len size_len w
  perform (number_of_dtc mask) w = report_number_of_dtc_by_status_mask tokio self mask w
  perform (dtcs mask) w = report_dtc_by_status_mask tokio self mask w
  perform (snapshot dtc number) w = report_dtc_snapshot_record_by_dtc_number tokio self dtc number w
  perform (extended dtc number) w = report_dtc_ext_data_record_by_dtc_number tokio self dtc number w
  perform most_recent w = report_most_recent_confirmed_dtc tokio self w

  -- The worlds after any calls that have returned, one after the other, whatever they returned.
  pub data Reaches (w : W) : W → Type 0 where
    start : Reaches w w
    called :
        {v u : W} {r : Result UdsResponse UdsError}
        → Reaches w v
        → (a : Action) → IsValid a
        → perform a v ≡ done r u
        → Reaches w u
