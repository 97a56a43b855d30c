-- ===== src/Services/Failures.antt =====
-- How the methods fail.
use uds_rs.Base.{ℕ, List, [], ◌∷◌, ◌≡◌, ◌↔◌, ◌⊎◌, err, as_u8, shr, map}
use uds_rs.NumEnum.{TryFromPrimitive}
use uds_rs.Definitions.{negative_response_code_as_u8}
use uds_rs.Response.{
  UdsResponse, UdsError, EcuResponseResult, ResetType, reset_type_as_u8, sub_function_as_u8,
  dtc_format_as_u8,
}
use uds_rs.Client.{Call, done, Tokio, UdsClient}
use uds_rs.Client.Conclusion.{Concludes}
use uds_rs.Client.Sound.{Served}
use uds_rs.Client.Methods.{run_method, run_method-failed_iff}
use uds_rs.EcuReset.{ecu_reset, parse_ecu_reset_response}
use uds_rs.ClearDiagnosticInformation.{
  clear_diagnostic_information, parse_clear_diagnostic_information_response,
}
use uds_rs.WriteDataByIdentifier.{write_data_by_identifier, parse_write_data_by_identifier_response}
use uds_rs.DiagnosticSessionControl.{
  diagnostic_session_control, parse_diagnostic_session_control_response,
}
use uds_rs.ReadDtcInformation.{
  report_number_of_dtc_by_status_mask, report_dtc_by_status_mask,
  report_dtc_snapshot_record_by_dtc_number, report_dtc_ext_data_record_by_dtc_number,
  report_most_recent_confirmed_dtc, parse_report_number_of_dtc_by_status_mask_response,
  parse_report_dtcs, parse_report_dtc_snapshot_record_by_dtc_number_response,
  parse_report_dtc_ext_data_by_dtc_number_response,
}
use uds_rs.ReadDataByIdentifier.{
  u32_max, read_data_by_identifier, read_data_by_identifier_tuple,
  compose_read_data_by_identifier_request, parse_read_data_by_identifier_response,
  parse_read_data_by_identifier_tuple_response,
}
use uds_rs.ReadDataByIdentifier.Request.{
  identifiers_bytes, compose_read_data_by_identifier_request_lem,
}

module _ ⦃nrcs : TryFromPrimitive negative_response_code_as_u8⦄ {W : Type 0} (tokio : Tokio W)
    (self : UdsClient W) (w : W) (e : UdsError) (v : W) where
  -- The call fails with `e`, with the world then `v`, exactly when the exchange of the request of
  -- those bytes ends so, or when the request is served by a message that the parser fails on with
  -- `e`.
  abbrev pub FailsBy : Call W UdsResponse → ℕ → List ℕ → (List ℕ → EcuResponseResult) → Type 0
  FailsBy call sid args parse = (call ≡ done (err e) v) ↔ (
      Concludes tokio self sid args w (err e) v
      ⊎ ((raw : List ℕ) × Served tokio self sid args w raw v × (parse raw ≡ err e)))

  read-FailsBy :
      (parse : List ℕ → EcuResponseResult) (is : List ℕ)
      → FailsBy
          (run_method tokio self parse (compose_read_data_by_identifier_request is) w)
          0x22
          (identifiers_bytes is)
          parse
  read-FailsBy parse is =
      rw (compose_read_data_by_identifier_request_lem is)
        (run_method-failed_iff tokio self parse 0x22 (identifiers_bytes is) w e v)

  -- Each method but those of ReadMemoryByAddress, also the one with lengths that is private, fails with
  -- an error exactly when its exchange ends with this error, or when the request, whose bytes are as
  -- shown, is served with a message that its parse function fails on with this error.
  pub methods-FailsBy :
      ⦃resets : TryFromPrimitive reset_type_as_u8⦄
      ⦃sub_functions : TryFromPrimitive sub_function_as_u8⦄
      ⦃formats : TryFromPrimitive dtc_format_as_u8⦄
      → (t : ResetType) (n number did did' : ℕ) (bytes dids : List ℕ) (requested : List (ℕ × ℕ))
      → FailsBy (ecu_reset tokio self t w) 0x11 (reset_type_as_u8 t ∷ []) parse_ecu_reset_response
        × FailsBy
            (diagnostic_session_control tokio self n w)
            0x10
            (n ∷ [])
            parse_diagnostic_session_control_response
        × FailsBy
            (clear_diagnostic_information tokio self n w)
            0x14
            (as_u8 (shr n 16) ∷ as_u8 (shr n 8) ∷ as_u8 n ∷ [])
            parse_clear_diagnostic_information_response
        × FailsBy
            (write_data_by_identifier tokio self did bytes w)
            0x2E
            (as_u8 (shr did 8) ∷ as_u8 did ∷ bytes)
            parse_write_data_by_identifier_response
        × FailsBy
            (read_data_by_identifier_tuple tokio self requested w)
            0x22
            (identifiers_bytes (map (λ p. p.0) requested))
            (parse_read_data_by_identifier_tuple_response requested)
        × FailsBy
            (read_data_by_identifier tokio self [] w)
            0x22
            []
            parse_read_data_by_identifier_response
        × FailsBy
            (read_data_by_identifier tokio self (did ∷ []) w)
            0x22
            (as_u8 (shr did 8) ∷ as_u8 did ∷ [])
            (parse_read_data_by_identifier_tuple_response ((did, u32_max) ∷ []))
        × FailsBy
            (read_data_by_identifier tokio self (did ∷ did' ∷ dids) w)
            0x22
            (identifiers_bytes (did ∷ did' ∷ dids))
            parse_read_data_by_identifier_response
        × FailsBy
            (report_number_of_dtc_by_status_mask tokio self n w)
            0x19
            (0x01 ∷ n ∷ [])
            parse_report_number_of_dtc_by_status_mask_response
        × FailsBy (report_dtc_by_status_mask tokio self n w) 0x19 (0x02 ∷ n ∷ []) parse_report_dtcs
        × FailsBy
            (report_dtc_snapshot_record_by_dtc_number tokio self n number w)
            0x19
            (0x04 ∷ as_u8 (shr n 16) ∷ as_u8 (shr n 8) ∷ as_u8 n ∷ number ∷ [])
            parse_report_dtc_snapshot_record_by_dtc_number_response
        × FailsBy
            (report_dtc_ext_data_record_by_dtc_number tokio self n number w)
            0x19
            (0x06 ∷ as_u8 (shr n 16) ∷ as_u8 (shr n 8) ∷ as_u8 n ∷ number ∷ [])
            parse_report_dtc_ext_data_by_dtc_number_response
        × FailsBy (report_most_recent_confirmed_dtc tokio self w) 0x19 (0x0E ∷ []) parse_report_dtcs
  unfolding ecu_reset clear_diagnostic_information write_data_by_identifier
      diagnostic_session_control report_number_of_dtc_by_status_mask report_dtc_by_status_mask
      report_dtc_snapshot_record_by_dtc_number report_dtc_ext_data_record_by_dtc_number
      report_most_recent_confirmed_dtc read_data_by_identifier read_data_by_identifier_tuple
  methods-FailsBy t n number did did' bytes dids requested = (
    run_method-failed_iff tokio self _ 0x11 _ w e v,
    run_method-failed_iff tokio self _ 0x10 _ w e v,
    run_method-failed_iff tokio self _ 0x14 _ w e v,
    run_method-failed_iff tokio self _ 0x2E _ w e v,
    read-FailsBy _ (map (λ p. p.0) requested),
    read-FailsBy _ [],
    read-FailsBy _ (did ∷ []),
    read-FailsBy _ (did ∷ did' ∷ dids),
    run_method-failed_iff tokio self _ 0x19 _ w e v,
    run_method-failed_iff tokio self _ 0x19 _ w e v,
    run_method-failed_iff tokio self _ 0x19 _ w e v,
    run_method-failed_iff tokio self _ 0x19 _ w e v,
    run_method-failed_iff tokio self _ 0x19 _ w e v,
  )
