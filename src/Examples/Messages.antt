-- ===== src/Examples/Messages.antt =====
-- The messages of the services at concrete bytes, most of them those of the unit tests in src/uds/.
use uds_rs.Base.{
  ℕ, ◌≡◌, refl, List, [], ◌∷◌, some, ok, err, arith, Bool, true, ltb, ◌&&◌, All, IsByte,
}
use uds_rs.Response.{
  UdsResponse, UdsError, parsed, raw, ResetType, SubFunction, DtcFormat, ReadDtcInformationResponse,
}
use uds_rs.EcuReset.{parse_ecu_reset_response}
use uds_rs.EcuReset.Format as EcuResetFormat
use uds_rs.EcuReset.Format.{parse_ecu_reset_response-iff-Accepts}
use uds_rs.WriteDataByIdentifier.{
  compose_write_data_by_identifier_request, parse_write_data_by_identifier_response,
}
use uds_rs.WriteDataByIdentifier.Format.{
  read_request, read_request-compose, parse_write_data_by_identifier_response-iff-Accepts,
}
use uds_rs.DiagnosticSessionControl.{parse_diagnostic_session_control_response}
use uds_rs.DiagnosticSessionControl.Format.{parse_diagnostic_session_control_response-iff-Accepts}
use uds_rs.ReadDataByIdentifier.{
  compose_read_data_by_identifier_request, parse_read_data_by_identifier_response,
  parse_read_data_by_identifier_tuple_response, parse_records, next_record, push_exactly, push_all,
  u32_max,
}
use uds_rs.ReadDataByIdentifier.Request.{read_identifiers, read_identifiers-compose}
use uds_rs.ReadDataByIdentifier.Format.{parse_read_data_by_identifier_tuple_response-iff-Accepts}
use uds_rs.ReadDtcInformation.{
  parse_report_dtcs, push_dtc_records, dtcs_report,
  parse_report_number_of_dtc_by_status_mask_response,
}
use uds_rs.ReadDtcInformation.Format.{
  parse_report_dtcs-iff-Accepts, parse_report_dtcs-invalid_length_iff,
}
use uds_rs.ReadDtcInformation.Counts.{parse_report_number_of_dtc-iff-Accepts}
use uds_rs.ReadDataByIdentifier.Format as TupleFormat
use uds_rs.ReadDtcInformation.Format as DtcsFormat
use uds_rs.DiagnosticSessionControl.Format as SessionFormat
use uds_rs.Services.Unparsed.{unparsed-AcceptsSid}
use uds_rs.Services.Blame.{Blames, parsers-Blames}
use uds_rs.Definitions.{ServiceIdentifier}
use uds_rs.Services.Requests.{Requests, composes-Requests}
use uds_rs.Examples.Tables.{reset_types_derive, sub_functions_derive, dtc_formats_derive}

abbrev all_bytes : List ℕ → Bool
all_bytes [] = true
all_bytes (b ∷ l) = ltb b 256 && all_bytes l

-- A list of literals is one of bytes by computation.
all_bytes-IsByte : (l : List ℕ) → all_bytes l ≡ true → All IsByte l
all_bytes-IsByte [] h = tt
all_bytes-IsByte (b ∷ l) h = (ground arith, all_bytes-IsByte l (ground arith))

run_ecu_reset :
    parse_ecu_reset_response (0x51 ∷ 0x04 ∷ 0x2A ∷ [])
    ≡ ok (
        UdsResponse.ecu_reset (
          parsed (record {
            reset_type = ResetType.enable_rapid_power_shut_down;
            power_down_time = some 0x2A;
          })))
unfolding parse_ecu_reset_response
run_ecu_reset = refl

run_ecu_reset_short :
    parse_ecu_reset_response (0x51 ∷ 0x04 ∷ []) ≡ err (UdsError.invalid_length (0x51 ∷ 0x04 ∷ []))
unfolding parse_ecu_reset_response
run_ecu_reset_short = refl

parse_ecu_reset_response-iff-Accepts_example : EcuResetFormat.Accepts (0x51 ∷ 0x04 ∷ 0x2A ∷ []) (
    UdsResponse.ecu_reset (
      parsed (record {
        reset_type = ResetType.enable_rapid_power_shut_down;
        power_down_time = some 0x2A;
      })))
parse_ecu_reset_response-iff-Accepts_example =
    (parse_ecu_reset_response-iff-Accepts (0x51 ∷ 0x04 ∷ 0x2A ∷ []) _).0 run_ecu_reset

read_request-compose_example :
    read_request (compose_write_data_by_identifier_request 0xF190 (0x01 ∷ 0x02 ∷ []))
    ≡ some (0xF190, 0x01 ∷ 0x02 ∷ [])
read_request-compose_example = read_request-compose 0xF190 (0x01 ∷ 0x02 ∷ []) (omega arith)

parse_write_data_by_identifier_response-iff-Accepts_example :
    parse_write_data_by_identifier_response (0x6E ∷ 0xF1 ∷ 0x90 ∷ [])
    ≡ ok (UdsResponse.write_data_by_identifier (parsed (record { data_identifier = 0xF190 })))
parse_write_data_by_identifier_response-iff-Accepts_example =
    (parse_write_data_by_identifier_response-iff-Accepts (0x6E ∷ 0xF1 ∷ 0x90 ∷ [])
        (UdsResponse.write_data_by_identifier (parsed (record { data_identifier = 0xF190 })))
        (all_bytes-IsByte (0x6E ∷ 0xF1 ∷ 0x90 ∷ []) refl)).1
      (0xF190, [], omega arith, refl, refl)

run_session :
    parse_diagnostic_session_control_response (0x50 ∷ 0x01 ∷ 0x00 ∷ 0x32 ∷ 0x01 ∷ 0xF4 ∷ [])
    ≡ ok (
        UdsResponse.diagnostic_session_control
          (parsed (record { session = 1; p2 = 50; p2_star = 500 })))
unfolding parse_diagnostic_session_control_response
run_session = refl

parse_diagnostic_session_control_response-iff-Accepts_example :
    SessionFormat.Accepts (0x50 ∷ 0x01 ∷ 0x00 ∷ 0x32 ∷ 0x01 ∷ 0xF4 ∷ []) (
      UdsResponse.diagnostic_session_control
        (parsed (record { session = 1; p2 = 50; p2_star = 500 })))
parse_diagnostic_session_control_response-iff-Accepts_example =
    (parse_diagnostic_session_control_response-iff-Accepts
        (0x50 ∷ 0x01 ∷ 0x00 ∷ 0x32 ∷ 0x01 ∷ 0xF4 ∷ []) _
        (all_bytes-IsByte (0x50 ∷ 0x01 ∷ 0x00 ∷ 0x32 ∷ 0x01 ∷ 0xF4 ∷ []) refl)).0
      run_session

abbrev tuple_message : List ℕ
tuple_message = 0x62 ∷ 0 ∷ 10 ∷ 0 ∷ 0 ∷ 20 ∷ 0 ∷ 0 ∷ 0 ∷ 0 ∷ 0 ∷ 1 ∷ 2 ∷ 3 ∷ 4 ∷ 5 ∷ []

abbrev tuple_answer : UdsResponse
tuple_answer = UdsResponse.read_data_by_identifier (
    parsed (record {
      data_records =
          record { data_identifier = 10; bytes = 0 ∷ [] }
          ∷ record { data_identifier = 20; bytes = 0 ∷ 0 ∷ 0 ∷ 0 ∷ 0 ∷ 1 ∷ 2 ∷ 3 ∷ 4 ∷ 5 ∷ [] }
          ∷ [];
    }))

run_tuple :
    parse_read_data_by_identifier_tuple_response ((10, 1) ∷ (20, 10) ∷ []) tuple_message
    ≡ ok tuple_answer
unfolding parse_read_data_by_identifier_tuple_response parse_records next_record push_exactly
    push_all
run_tuple = refl

-- The last record takes what is left.
run_tuple_rest :
    parse_read_data_by_identifier_tuple_response ((10, 1) ∷ (20, u32_max) ∷ []) tuple_message
    ≡ ok tuple_answer
unfolding parse_read_data_by_identifier_tuple_response parse_records next_record push_exactly
    push_all
run_tuple_rest = refl

run_tuple_did :
    parse_read_data_by_identifier_tuple_response ((10, 1) ∷ (21, 10) ∷ []) tuple_message
    ≡ err (UdsError.did_mismatch 21 20 tuple_message)
unfolding parse_read_data_by_identifier_tuple_response parse_records next_record push_exactly
    push_all
run_tuple_did = refl

run_tuple_short :
    parse_read_data_by_identifier_tuple_response ((10, 1) ∷ (20, 11) ∷ []) tuple_message
    ≡ err (UdsError.invalid_length tuple_message)
unfolding parse_read_data_by_identifier_tuple_response parse_records next_record push_exactly
    push_all
run_tuple_short = refl

parse_read_data_by_identifier_tuple_response-iff-Accepts_example :
    TupleFormat.Accepts ((10, 1) ∷ (20, 10) ∷ []) tuple_message tuple_answer
parse_read_data_by_identifier_tuple_response-iff-Accepts_example =
    (parse_read_data_by_identifier_tuple_response-iff-Accepts ((10, 1) ∷ (20, 10) ∷ [])
        tuple_message tuple_answer (all_bytes-IsByte tuple_message refl)).0
      run_tuple

read_identifiers-compose_example :
    (body : List ℕ) × (compose_read_data_by_identifier_request (0xF190 ∷ 0x0102 ∷ []) ≡ 0x22 ∷ body)
    × (read_identifiers body ≡ 0xF190 ∷ 0x0102 ∷ [])
read_identifiers-compose_example =
    read_identifiers-compose (0xF190 ∷ 0x0102 ∷ []) (omega arith, (omega arith, tt))

abbrev dtcs_message : List ℕ
dtcs_message = 0x59 ∷ 0x02 ∷ 0xFF ∷ 0x01 ∷ 0x02 ∷ 0x03 ∷ 0x2F ∷ []

abbrev dtcs_answer : UdsResponse
dtcs_answer = UdsResponse.read_dtc_information (
    parsed (
      ReadDtcInformationResponse.report_dtc_by_status_mask (record {
        dtc_status_availability_mask = 0xFF;
        dtc_and_status_records = record { dtc = 0x010203; status_of_dtc = 0x2F } ∷ [];
      })))

run_dtcs : parse_report_dtcs dtcs_message ≡ ok dtcs_answer
unfolding parse_report_dtcs push_dtc_records dtcs_report
run_dtcs = refl

-- A subfunction with another report is refused as an argument, although the caller gave none.
run_dtcs_subfunction : parse_report_dtcs (0x59 ∷ 0x01 ∷ 0xFF ∷ []) ≡ err UdsError.invalid_argument
unfolding parse_report_dtcs push_dtc_records dtcs_report
run_dtcs_subfunction = refl

parse_report_dtcs-iff-Accepts_example : DtcsFormat.Accepts dtcs_message dtcs_answer
parse_report_dtcs-iff-Accepts_example =
    (parse_report_dtcs-iff-Accepts dtcs_message dtcs_answer (all_bytes-IsByte dtcs_message refl)).0
      run_dtcs

parse_report_dtcs-invalid_length_iff_example :
    parse_report_dtcs (0x59 ∷ 0x02 ∷ 0xFF ∷ 0x01 ∷ 0x02 ∷ [])
    ≡ err (UdsError.invalid_length (0x59 ∷ 0x02 ∷ 0xFF ∷ 0x01 ∷ 0x02 ∷ []))
parse_report_dtcs-invalid_length_iff_example =
    (parse_report_dtcs-invalid_length_iff 0x02 0xFF (0x01 ∷ 0x02 ∷ [])).1 (omega arith)

parse_report_number_of_dtc-iff-Accepts_example :
    parse_report_number_of_dtc_by_status_mask_response
      (0x59 ∷ 0x01 ∷ 0xFF ∷ 0x01 ∷ 0x01 ∷ 0x02 ∷ [])
    ≡ ok (
        UdsResponse.read_dtc_information (
          parsed (
            ReadDtcInformationResponse.report_number_of_dtc_by_status_mask (record {
              dtc_status_availability_mask = 0xFF;
              dtc_format_identifier = DtcFormat.iso_14229_1;
              dtc_count = 0x0102;
            }))))
parse_report_number_of_dtc-iff-Accepts_example =
    (parse_report_number_of_dtc-iff-Accepts (0x59 ∷ 0x01 ∷ 0xFF ∷ 0x01 ∷ 0x01 ∷ 0x02 ∷ []) _
        (all_bytes-IsByte (0x59 ∷ 0x01 ∷ 0xFF ∷ 0x01 ∷ 0x01 ∷ 0x02 ∷ []) refl)).1
      (
        SubFunction.report_number_of_dtc_by_status_mask,
        0xFF,
        DtcFormat.iso_14229_1,
        0x0102,
        [],
        _,
        omega arith,
        refl,
        refl,
        refl,
      )

parsers-Blames_example : Blames tuple_message (parse_ecu_reset_response tuple_message)
parsers-Blames_example = (parsers-Blames tuple_message ((10, 1) ∷ [])).0

unparsed-AcceptsSid_example :
    parse_read_data_by_identifier_response (0x62 ∷ 0 ∷ 10 ∷ 0 ∷ [])
    ≡ ok (UdsResponse.read_data_by_identifier (raw (0 ∷ 10 ∷ 0 ∷ [])))
unparsed-AcceptsSid_example =
    (unparsed-AcceptsSid (0x62 ∷ 0 ∷ 10 ∷ 0 ∷ [])
        (UdsResponse.read_data_by_identifier (raw (0 ∷ 10 ∷ 0 ∷ [])))).1.1
      (0 ∷ 10 ∷ 0 ∷ [], refl, refl)

composes-Requests_example :
    Requests ServiceIdentifier.write_data_by_identifier
      (compose_write_data_by_identifier_request 0xF190 (1 ∷ 2 ∷ []))
composes-Requests_example =
    (composes-Requests ResetType.hard_reset SubFunction.report_dtc_by_status_mask 0x24 0x12345678
      0xF190 (0xF190 ∷ []) (1 ∷ 2 ∷ []) (3 ∷ []) (omega arith) (omega arith, (omega arith, tt))
      (omega arith, tt)).3
