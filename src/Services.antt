-- ===== src/Services.antt =====
-- The methods of `UdsClient` together: what they return, how they end, what their errors carry.
pub mod Blame
pub mod Endings
pub mod Failures
pub mod Errors
pub mod Unparsed
pub mod Requests
use uds_rs.Base.{ℕ, List, [], ◌∷◌, ◌++◌, ◌≡◌, ◌↔◌, ok, err, as_u8, shr, map}
use uds_rs.NumEnum.{TryFromPrimitive}
use uds_rs.Definitions.{negative_response_code_as_u8}
use uds_rs.Response.{
  UdsResponse, EcuResponseResult, ResetType, reset_type_as_u8, SubFunction, sub_function_as_u8,
  dtc_format_as_u8,
}
use uds_rs.Client.{Call, done, Tokio, UdsClient}
use uds_rs.Client.Sound.{Served}
use uds_rs.Client.Methods.{run_method-iff-Served}
use uds_rs.EcuReset.{ecu_reset, compose_ecu_reset_request, parse_ecu_reset_response}
use uds_rs.ClearDiagnosticInformation.{
  clear_diagnostic_information, compose_clear_diagnostic_information_request,
  parse_clear_diagnostic_information_response,
}
use uds_rs.WriteDataByIdentifier.{
  write_data_by_identifier, compose_write_data_by_identifier_request,
  parse_write_data_by_identifier_response,
}
use uds_rs.DiagnosticSessionControl.{
  diagnostic_session_control, compose_diagnostic_session_control_request,
  parse_diagnostic_session_control_response,
}
use uds_rs.ReadDtcInformation.{
  report_number_of_dtc_by_status_mask, report_dtc_by_status_mask,
  report_dtc_snapshot_record_by_dtc_number, report_dtc_ext_data_record_by_dtc_number,
  report_most_recent_confirmed_dtc, compose_report_number_of_dtc_by_status_mask_request,
  compose_report_dtc_snapshot_request, compose_report_dtc_ext_data_by_dtc_number_request,
  compose_request_short, parse_report_number_of_dtc_by_status_mask_response, parse_report_dtcs,
  parse_report_dtc_snapshot_record_by_dtc_number_response,
  parse_report_dtc_ext_data_by_dtc_number_response,
}

module _ ⦃nrcs : TryFromPrimitive negative_response_code_as_u8⦄ {W : Type 0} (tokio : Tokio W)
    (self : UdsClient W) (w : W) (x : UdsResponse) (v : W) where
  -- The call returns `x`, with the world then `v`, exactly when the request of those bytes is served
  -- by a message that is parsed to `x`.
  abbrev pub ReturnsParsed : Call W UdsResponse → ℕ → List ℕ → (List ℕ → EcuResponseResult) → Type 0
  ReturnsParsed call sid args parse =
      (call ≡ done (ok x) v)
      ↔ ((raw : List ℕ) × Served tokio self sid args w raw v × (parse raw ≡ ok x))

  -- A call of EcuReset, WriteDataByIdentifier, DiagnosticSessionControl or
  -- ClearDiagnosticInformation returns a response exactly when the protocol serves the request,
  -- whose bytes are as shown, with a message that is parsed to it.
  pub methods-ReturnsParsed :
      ⦃resets : TryFromPrimitive reset_type_as_u8⦄
      → (t : ResetType) (session group did : ℕ) (bytes : List ℕ)
      → ReturnsParsed
          (ecu_reset tokio self t w)
          0x11
          (reset_type_as_u8 t ∷ [])
          parse_ecu_reset_response
        × ReturnsParsed
            (diagnostic_session_control tokio self session w)
            0x10
            (session ∷ [])
            parse_diagnostic_session_control_response
        × ReturnsParsed
            (clear_diagnostic_information tokio self group w)
            0x14
            (as_u8 (shr group 16) ∷ as_u8 (shr group 8) ∷ as_u8 group ∷ [])
            parse_clear_diagnostic_information_response
        × ReturnsParsed
            (write_data_by_identifier tokio self did bytes w)
            0x2E
            (as_u8 (shr did 8) ∷ as_u8 did ∷ bytes)
            parse_write_data_by_identifier_response
  unfolding ecu_reset diagnostic_session_control clear_diagnostic_information
      write_data_by_identifier
  methods-ReturnsParsed t session group did bytes = (
    run_method-iff-Served tokio self parse_ecu_reset_response 0x11 _ w x v,
    run_method-iff-Served tokio self parse_diagnostic_session_control_response 0x10 _ w x v,
    run_method-iff-Served tokio self parse_clear_diagnostic_information_response 0x14 _ w x v,
    run_method-iff-Served tokio self parse_write_data_by_identifier_response 0x2E _ w x v,
  )

  -- A call of one of the five reports of ReadDTCInformation returns a response exactly when the
  -- protocol serves the request, whose bytes are as shown, with a message that is parsed to it.
  pub reports-ReturnsParsed :
      ⦃sub_functions : TryFromPrimitive sub_function_as_u8⦄
      ⦃formats : TryFromPrimitive dtc_format_as_u8⦄
      → (mask dtc number : ℕ)
      → ReturnsParsed
          (report_number_of_dtc_by_status_mask tokio self mask w)
          0x19
          (0x01 ∷ mask ∷ [])
          parse_report_number_of_dtc_by_status_mask_response
        × ReturnsParsed
            (report_dtc_by_status_mask tokio self mask w)
            0x19
            (0x02 ∷ mask ∷ [])
            parse_report_dtcs
        × ReturnsParsed
            (report_dtc_snapshot_record_by_dtc_number tokio self dtc number w)
            0x19
            (0x04 ∷ as_u8 (shr dtc 16) ∷ as_u8 (shr dtc 8) ∷ as_u8 dtc ∷ number ∷ [])
            parse_report_dtc_snapshot_record_by_dtc_number_response
        × ReturnsParsed
            (report_dtc_ext_data_record_by_dtc_number tokio self dtc number w)
            0x19
            (0x06 ∷ as_u8 (shr dtc 16) ∷ as_u8 (shr dtc 8) ∷ as_u8 dtc ∷ number ∷ [])
            parse_report_dtc_ext_data_by_dtc_number_response
        × ReturnsParsed
            (report_most_recent_confirmed_dtc tokio self w)
            0x19
            (0x0E ∷ [])
            parse_report_dtcs
  unfolding report_number_of_dtc_by_status_mask report_dtc_by_status_mask
      report_dtc_snapshot_record_by_dtc_number report_dtc_ext_data_record_by_dtc_number
      report_most_recent_confirmed_dtc
  reports-ReturnsParsed mask dtc number = (
    run_method-iff-Served tokio self parse_report_number_of_dtc_by_status_mask_response 0x19 _ w x
        v,
    run_method-iff-Served tokio self parse_report_dtcs 0x19 _ w x v,
    run_method-iff-Served tokio self parse_report_dtc_snapshot_record_by_dtc_number_response 0x19 _
        w x v,
    run_method-iff-Served tokio self parse_report_dtc_ext_data_by_dtc_number_response 0x19 _ w x v,
    run_method-iff-Served tokio self parse_report_dtcs 0x19 _ w x v,
  )
