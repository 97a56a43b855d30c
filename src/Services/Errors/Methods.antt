-- ===== src/Services/Errors/Methods.antt =====
-- The errors that the methods return.
use uds_rs.Base.{ℕ, List, [], ◌∷◌, map, Option}
use uds_rs.NumEnum.{TryFromPrimitive}
use uds_rs.Definitions.{negative_response_code_as_u8}
use uds_rs.Response.{ResetType, reset_type_as_u8, sub_function_as_u8, dtc_format_as_u8}
use uds_rs.Client.{return_panic, Tokio, UdsClient}
use uds_rs.Services.Blame.{
  ecu_reset-Blames, clear-Blames, write-Blames, session-Blames, read-Blames, tuple-Blames,
  snapshot-Blames, ext_data-Blames, number-Blames, dtcs-Blames,
}
use uds_rs.EcuReset.{ecu_reset}
use uds_rs.ClearDiagnosticInformation.{clear_diagnostic_information}
use uds_rs.WriteDataByIdentifier.{write_data_by_identifier}
use uds_rs.DiagnosticSessionControl.{diagnostic_session_control}
use uds_rs.ReadDataByIdentifier.{
  u32_max, read_data_by_identifier, read_data_by_identifier_tuple,
  parse_read_data_by_identifier_response, parse_read_data_by_identifier_tuple_response,
}
use uds_rs.ReadDataByIdentifier.Request.{compose_read_data_by_identifier_request_lem}
use uds_rs.ReadMemoryByAddress.{
  convert_from_simple_to_normal, provided_len, read_memory_by_address,
  read_memory_by_address_simplified, encode_bytes,
}
use uds_rs.ReadDtcInformation.{
  report_number_of_dtc_by_status_mask, report_dtc_by_status_mask,
  report_dtc_snapshot_record_by_dtc_number, report_dtc_ext_data_record_by_dtc_number,
  report_most_recent_confirmed_dtc,
}
use uds_rs.Services.Errors.{
  Raises, await_call-Raises, transpose-Raises, >>=-Tells, provided_len-Tells, run_method-Raises,
  read_memory-Raises,
}

module _ ⦃nrcs : TryFromPrimitive negative_response_code_as_u8⦄ {W : Type 0} (tokio : Tokio W)
    (self : UdsClient W) where
  simplified-Raises :
      (address size : ℕ) (address_len size_len : Option ℕ) (w : W)
      → Raises (read_memory_by_address_simplified tokio self address size address_len size_len w)
  unfolding read_memory_by_address_simplified convert_from_simple_to_normal
  simplified-Raises address size address_len size_len w =
      await_call-Raises
        (return_panic (convert_from_simple_to_normal address size address_len size_len) w) _
        (transpose-Raises _ w (
          >>=-Tells (provided_len address_len (encode_bytes address)) _
            (provided_len-Tells address_len (encode_bytes address))
            (λ a.
              >>=-Tells (provided_len size_len (encode_bytes size)) _
                (provided_len-Tells size_len (encode_bytes size)) (λ b. tt))))
        (λ arguments v. read_memory-Raises tokio self v arguments.0 arguments.1 arguments.2)

  read_tuple-Raises :
      (requested : List (ℕ × ℕ)) (w : W)
      → Raises (read_data_by_identifier_tuple tokio self requested w)
  unfolding read_data_by_identifier_tuple
  read_tuple-Raises requested w =
      rw (compose_read_data_by_identifier_request_lem (map (λ p. p.0) requested)) (
        run_method-Raises tokio self w (parse_read_data_by_identifier_tuple_response requested) 0x22
          _ (λ raw. tuple-Blames raw requested))

  read-Raises : (dids : List ℕ) (w : W) → Raises (read_data_by_identifier tokio self dids w)
  unfolding read_data_by_identifier
  read-Raises (did ∷ []) w = read_tuple-Raises ((did, u32_max) ∷ []) w
  read-Raises [] w = rw (compose_read_data_by_identifier_request_lem []) (
      run_method-Raises tokio self w parse_read_data_by_identifier_response 0x22 _
        (λ raw. read-Blames raw))
  read-Raises (did ∷ did' ∷ dids) w =
      rw (compose_read_data_by_identifier_request_lem (did ∷ did' ∷ dids)) (
        run_method-Raises tokio self w parse_read_data_by_identifier_response 0x22 _
          (λ raw. read-Blames raw))

  -- No method fails with `NotImplemented`, `UnsupportedSubfunction` or `RequestEmpty`, whatever its
  -- arguments are and whatever the ECU sends.
  pub methods-Raises :
      ⦃resets : TryFromPrimitive reset_type_as_u8⦄
      ⦃sub_functions : TryFromPrimitive sub_function_as_u8⦄
      ⦃formats : TryFromPrimitive dtc_format_as_u8⦄
      → (t : ResetType) (n m : ℕ) (bytes bytes' dids : List ℕ) (requested : List (ℕ × ℕ))
        (len len' : Option ℕ) (w : W)
      → Raises (ecu_reset tokio self t w)
        × Raises (clear_diagnostic_information tokio self n w)
        × Raises (write_data_by_identifier tokio self n bytes w)
        × Raises (diagnostic_session_control tokio self n w)
        × Raises (read_data_by_identifier tokio self dids w)
        × Raises (read_data_by_identifier_tuple tokio self requested w)
        × Raises (read_memory_by_address tokio self n bytes bytes' w)
        × Raises (read_memory_by_address_simplified tokio self n m len len' w)
        × Raises (report_number_of_dtc_by_status_mask tokio self n w)
        × Raises (report_dtc_by_status_mask tokio self n w)
        × Raises (report_dtc_snapshot_record_by_dtc_number tokio self n m w)
        × Raises (report_dtc_ext_data_record_by_dtc_number tokio self n m w)
        × Raises (report_most_recent_confirmed_dtc tokio self w)
  unfolding ecu_reset clear_diagnostic_information write_data_by_identifier
      diagnostic_session_control report_number_of_dtc_by_status_mask report_dtc_by_status_mask
      report_dtc_snapshot_record_by_dtc_number report_dtc_ext_data_record_by_dtc_number
      report_most_recent_confirmed_dtc
  methods-Raises t n m bytes bytes' dids requested len len' w = (
    run_method-Raises tokio self w _ 0x11 _ (λ raw. ecu_reset-Blames raw),
    run_method-Raises tokio self w _ 0x14 _ (λ raw. clear-Blames raw),
    run_method-Raises tokio self w _ 0x2E _ (λ raw. write-Blames raw),
    run_method-Raises tokio self w _ 0x10 _ (λ raw. session-Blames raw),
    read-Raises dids w,
    read_tuple-Raises requested w,
    read_memory-Raises tokio self w n bytes bytes',
    simplified-Raises n m len len' w,
    run_method-Raises tokio self w _ 0x19 _ (λ raw. number-Blames raw),
    run_method-Raises tokio self w _ 0x19 _ (λ raw. dtcs-Blames raw),
    run_method-Raises tokio self w _ 0x19 _ (λ raw. snapshot-Blames raw),
    run_method-Raises tokio self w _ 0x19 _ (λ raw. ext_data-Blames raw),
    run_method-Raises tokio self w _ 0x19 _ (λ raw. dtcs-Blames raw),
  )
