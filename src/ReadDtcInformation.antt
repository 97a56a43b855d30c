-- ===== src/ReadDtcInformation.antt =====
-- src/uds/read_dtc_information.rs: the service ReadDTCInformation (0x19).
mod Reports
pub mod Records
pub mod Format
pub mod Counts
unfoldable pub use Reports.{number_report, dtcs_report}
use uds_rs.Base.{
  ℕ, ◌+◌, List, [], ◌∷◌, ◌++◌, Result, ok, err, ◌>>=◌, as_u8, shr, u16_from, u32_from,
}
use uds_rs.NumEnum.{TryFromPrimitive}
use uds_rs.Definitions.{send_receive_sid_offset, negative_response_code_as_u8}
use uds_rs.Response.{
  DataFormat, parsed, raw, UdsResponse, UdsError, EcuResponseResult, SubFunction,
  sub_function_as_u8, dtc_format_as_u8, ReportNumberOfDtcByMaskResponse, DtcAndStatusRecord,
  ReportDtcsResponse, next_or, check_sid, or_incorrect,
}
use uds_rs.Client.{Call, done, await_call, Tokio, UdsClient, send_and_receive}

abbrev pub read_dtc_information_sid : ℕ
read_dtc_information_sid = 0x19

unfoldable pub compose_report_number_of_dtc_by_status_mask_request : SubFunction → ℕ → List ℕ
compose_report_number_of_dtc_by_status_mask_request subfunction dtc_status_mask =
    read_dtc_information_sid ∷ sub_function_as_u8 subfunction ∷ dtc_status_mask ∷ []

unfoldable pub compose_report_dtc_snapshot_request : SubFunction → ℕ → ℕ → List ℕ
compose_report_dtc_snapshot_request sub_function dtc_mask_record dtc_snapshot_record_number =
    read_dtc_information_sid
    ∷ sub_function_as_u8 sub_function
    ∷ as_u8 (shr dtc_mask_record 16)
    ∷ as_u8 (shr dtc_mask_record 8)
    ∷ as_u8 dtc_mask_record
    ∷ dtc_snapshot_record_number
    ∷ []

unfoldable pub compose_request_short : SubFunction → List ℕ
compose_request_short sub_function = read_dtc_information_sid ∷ sub_function_as_u8 sub_function ∷ []

unfoldable pub compose_report_dtc_ext_data_by_dtc_number_request : SubFunction → ℕ → ℕ → List ℕ
compose_report_dtc_ext_data_by_dtc_number_request sub_function dtc_mask_record record_number =
    read_dtc_information_sid
    ∷ sub_function_as_u8 sub_function
    ∷ as_u8 (shr dtc_mask_record 16)
    ∷ as_u8 (shr dtc_mask_record 8)
    ∷ as_u8 dtc_mask_record
    ∷ record_number
    ∷ []

-- The subfunctions 0x04 and 0x06: the response is not parsed. The slice `raw_response[1..]` is what
-- follows the SID: `check_sid` refuses an empty message before it, so it is not out of range.
unfoldable pub parse_report_dtc_snapshot_record_by_dtc_number_response : List ℕ → EcuResponseResult
unfolding check_sid
parse_report_dtc_snapshot_record_by_dtc_number_response raw_response = do
  rest ←
      check_sid UdsError.response_empty (read_dtc_information_sid + send_receive_sid_offset)
        raw_response
  ok (UdsResponse.read_dtc_information (raw rest))

unfoldable pub parse_report_dtc_ext_data_by_dtc_number_response : List ℕ → EcuResponseResult
unfolding check_sid
parse_report_dtc_ext_data_by_dtc_number_response raw_response = do
  rest ←
      check_sid UdsError.response_empty (read_dtc_information_sid + send_receive_sid_offset)
        raw_response
  ok (UdsResponse.read_dtc_information (raw rest))

-- The `while let` that takes four bytes a round.
unfoldable pub push_dtc_records :
    List ℕ → List DtcAndStatusRecord → List ℕ → Result (List DtcAndStatusRecord) UdsError
push_dtc_records raw_response records [] = ok records
push_dtc_records raw_response records (_ ∷ []) = err (UdsError.invalid_length raw_response)
push_dtc_records raw_response records (_ ∷ _ ∷ []) = err (UdsError.invalid_length raw_response)
push_dtc_records raw_response records (_ ∷ _ ∷ _ ∷ []) = err (UdsError.invalid_length raw_response)
push_dtc_records raw_response records (high ∷ middle ∷ low ∷ status_of_dtc ∷ rest) =
    push_dtc_records raw_response
      (records ++ (record { dtc = u32_from high middle low; status_of_dtc = status_of_dtc } ∷ []))
      rest

module _ ⦃sub_functions : TryFromPrimitive sub_function_as_u8⦄ where
  unfoldable pub parse_report_number_of_dtc_by_status_mask_response :
      ⦃formats : TryFromPrimitive dtc_format_as_u8⦄ → List ℕ → EcuResponseResult
  unfolding check_sid
  parse_report_number_of_dtc_by_status_mask_response ⦃formats⦄ raw_response = do
    rest ←
        check_sid UdsError.response_empty (read_dtc_information_sid + send_receive_sid_offset)
          raw_response
    (report_type_byte, rest) ← next_or (UdsError.invalid_length raw_response) rest
    report_type ← or_incorrect raw_response (sub_functions.try_from report_type_byte)
    (mask, rest) ← next_or (UdsError.invalid_length raw_response) rest
    (dtc_format_identifier_byte, rest) ← next_or (UdsError.invalid_length raw_response) rest
    format ← or_incorrect raw_response (formats.try_from dtc_format_identifier_byte)
    (msb, rest) ← next_or (UdsError.invalid_length raw_response) rest
    (lsb, _) ← next_or (UdsError.invalid_length raw_response) rest
    response ← number_report report_type (record {
      dtc_status_availability_mask = mask;
      dtc_format_identifier = format;
      dtc_count = u16_from msb lsb;
    })
    ok (UdsResponse.read_dtc_information (parsed response))

  unfoldable pub parse_report_dtcs : List ℕ → EcuResponseResult
  unfolding check_sid push_dtc_records
  parse_report_dtcs raw_response = do
    rest ←
        check_sid UdsError.response_empty (read_dtc_information_sid + send_receive_sid_offset)
          raw_response
    (report_type, rest) ← next_or (UdsError.invalid_length raw_response) rest
    (mask, rest) ← next_or (UdsError.invalid_length raw_response) rest
    records ← push_dtc_records raw_response [] rest
    sub_function ← or_incorrect raw_response (sub_functions.try_from report_type)
    response ←
        dtcs_report sub_function
          (record { dtc_status_availability_mask = mask; dtc_and_status_records = records })
    ok (UdsResponse.read_dtc_information (parsed response))

module _ ⦃nrcs : TryFromPrimitive negative_response_code_as_u8⦄ {W : Type 0} (tokio : Tokio W)
    (self : UdsClient W) where
  unfoldable pub report_dtc_snapshot_record_by_dtc_number : ℕ → ℕ → W → Call W UdsResponse
  unfolding compose_report_dtc_snapshot_request
  report_dtc_snapshot_record_by_dtc_number dtc_mask_record dtc_snapshot_record_number w =
      await_call
        (send_and_receive tokio self
          (compose_report_dtc_snapshot_request SubFunction.report_dtc_snapshot_record_by_dtc_number
            dtc_mask_record dtc_snapshot_record_number)
          w)
        λ raw_response w.
          done (parse_report_dtc_snapshot_record_by_dtc_number_response raw_response) w

  unfoldable pub report_dtc_ext_data_record_by_dtc_number : ℕ → ℕ → W → Call W UdsResponse
  unfolding compose_report_dtc_ext_data_by_dtc_number_request
  report_dtc_ext_data_record_by_dtc_number dtc_mask_record dtc_ext_data_record_number w =
      await_call
        (send_and_receive tokio self
          (compose_report_dtc_ext_data_by_dtc_number_request
            SubFunction.report_dtc_ext_data_record_by_dtc_number dtc_mask_record
            dtc_ext_data_record_number)
          w)
        λ raw_response w. done (parse_report_dtc_ext_data_by_dtc_number_response raw_response) w

  module _ ⦃sub_functions : TryFromPrimitive sub_function_as_u8⦄ where
    unfoldable pub report_number_of_dtc_by_status_mask :
        ⦃formats : TryFromPrimitive dtc_format_as_u8⦄ → ℕ → W → Call W UdsResponse
    unfolding compose_report_number_of_dtc_by_status_mask_request
    report_number_of_dtc_by_status_mask ⦃formats⦄ dtc_status_mask w =
        await_call
          (send_and_receive tokio self
            (compose_report_number_of_dtc_by_status_mask_request
              SubFunction.report_number_of_dtc_by_status_mask dtc_status_mask)
            w)
          λ raw_response w. done (parse_report_number_of_dtc_by_status_mask_response raw_response) w

    unfoldable pub report_dtc_by_status_mask : ℕ → W → Call W UdsResponse
    unfolding compose_report_number_of_dtc_by_status_mask_request
    report_dtc_by_status_mask dtc_status_mask w =
        await_call
          (send_and_receive tokio self
            (compose_report_number_of_dtc_by_status_mask_request
              SubFunction.report_dtc_by_status_mask dtc_status_mask)
            w)
          λ raw_response w. done (parse_report_dtcs raw_response) w

    unfoldable pub report_most_recent_confirmed_dtc : W → Call W UdsResponse
    unfolding compose_request_short
    report_most_recent_confirmed_dtc w =
        await_call
          (send_and_receive tokio self
            (compose_request_short SubFunction.report_most_recent_confirmed_dtc) w)
          λ raw_response w. done (parse_report_dtcs raw_response) w
