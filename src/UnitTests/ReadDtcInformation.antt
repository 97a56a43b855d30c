-- ===== src/UnitTests/ReadDtcInformation.antt =====
-- src/uds/read_dtc_information.rs: its unit tests. A test that unwraps a conversion asserts that there
-- is a variant.
use uds_rs.Base.{ℕ, ◌+◌, ◌≡◌, refl, List, [], ◌∷◌, ok, err, as_u8, shr}
use uds_rs.NumEnum.{variant, TryFromPrimitive}
use uds_rs.Definitions.{send_receive_sid_offset}
use uds_rs.Response.{
  UdsResponse, UdsError, parsed, SubFunction, sub_function_as_u8, DtcFormat, dtc_format_as_u8,
  DtcAndStatusRecord, ReportDtcsResponse, ReadDtcInformationResponse,
}
use uds_rs.ReadDtcInformation.{
  read_dtc_information_sid, compose_report_number_of_dtc_by_status_mask_request, number_report,
  dtcs_report, compose_report_dtc_snapshot_request, compose_request_short, push_dtc_records,
  parse_report_number_of_dtc_by_status_mask_response, parse_report_dtcs,
  parse_report_dtc_snapshot_record_by_dtc_number_response,
  parse_report_dtc_ext_data_by_dtc_number_response,
}

abbrev sid : ℕ
sid = read_dtc_information_sid

abbrev positive_sid : ℕ
positive_sid = read_dtc_information_sid + send_receive_sid_offset

-- The `for` loop that pushes four bytes for each record.
abbrev pushed : List DtcAndStatusRecord → List ℕ
pushed [] = []
pushed (r ∷ records) =
    as_u8 (shr r.dtc 16) ∷ as_u8 (shr r.dtc 8) ∷ as_u8 r.dtc ∷ r.status_of_dtc ∷ pushed records

abbrev four_records : List DtcAndStatusRecord
four_records =
    record { dtc = 0x123456; status_of_dtc = 0xFF }
    ∷ record { dtc = 0x42; status_of_dtc = 0x0 }
    ∷ record { dtc = 0x0; status_of_dtc = 0xFF }
    ∷ record { dtc = 0xFFFFFF; status_of_dtc = 0xFF }
    ∷ []

abbrev one_record : List DtcAndStatusRecord
one_record = record { dtc = 0x123456; status_of_dtc = 0xFF } ∷ []

abbrev report_of : List DtcAndStatusRecord → ReportDtcsResponse
report_of records = record { dtc_status_availability_mask = 0xFF; dtc_and_status_records = records }

abbrev TestParseResponse0x04 : Type 0
TestParseResponse0x04 =
    parse_report_dtc_snapshot_record_by_dtc_number_response [] ≡ err UdsError.response_empty

test_parse_response_0x04 : TestParseResponse0x04
unfolding parse_report_dtc_snapshot_record_by_dtc_number_response
test_parse_response_0x04 = refl

abbrev TestParseResponse0x06 : Type 0
TestParseResponse0x06 =
    parse_report_dtc_ext_data_by_dtc_number_response [] ≡ err UdsError.response_empty

test_parse_response_0x06 : TestParseResponse0x06
unfolding parse_report_dtc_ext_data_by_dtc_number_response
test_parse_response_0x06 = refl

module _ ⦃sub_functions : TryFromPrimitive sub_function_as_u8⦄ where
  abbrev TestComposeRequest0x01 : Type 0
  TestComposeRequest0x01 =
      (sub_function : SubFunction) × (sub_functions.try_from 0x1 ≡ variant sub_function)
      × (compose_report_number_of_dtc_by_status_mask_request
            SubFunction.report_number_of_dtc_by_status_mask 0x42
          ≡ sid ∷ sub_function_as_u8 sub_function ∷ 0x42 ∷ [])

  test_compose_request_0x01 : TestComposeRequest0x01
  unfolding compose_report_number_of_dtc_by_status_mask_request
  test_compose_request_0x01 =
      (_, sub_functions.try_from-as_u8 SubFunction.report_number_of_dtc_by_status_mask, refl)

  abbrev TestParseResponse0x01 : ⦃formats : TryFromPrimitive dtc_format_as_u8⦄ → Type 0
  TestParseResponse0x01 ⦃formats⦄ =
      let dtc_format = DtcFormat.iso_14229_1 in
      let dtc_count : ℕ = 0x100F in
      parse_report_number_of_dtc_by_status_mask_response (
        positive_sid
        ∷ sub_function_as_u8 SubFunction.report_number_of_dtc_by_status_mask
        ∷ 0x18
        ∷ dtc_format_as_u8 dtc_format
        ∷ as_u8 (shr dtc_count 8)
        ∷ as_u8 dtc_count
        ∷ [])
      ≡ ok (
          UdsResponse.read_dtc_information (
            parsed (
              ReadDtcInformationResponse.report_number_of_dtc_by_status_mask (record {
                dtc_status_availability_mask = 0x18;
                dtc_format_identifier = dtc_format;
                dtc_count = dtc_count;
              }))))

  test_parse_response_0x01 : ⦃formats : TryFromPrimitive dtc_format_as_u8⦄ → TestParseResponse0x01
  unfolding parse_report_number_of_dtc_by_status_mask_response number_report
  test_parse_response_0x01 ⦃formats⦄ = rw (
    sub_functions.try_from-as_u8 SubFunction.report_number_of_dtc_by_status_mask,
    formats.try_from-as_u8 DtcFormat.iso_14229_1,
  )

  abbrev TestComposeRequest0x02 : Type 0
  TestComposeRequest0x02 =
      (sub_function : SubFunction) × (sub_functions.try_from 0x2 ≡ variant sub_function)
      × (compose_report_number_of_dtc_by_status_mask_request SubFunction.report_dtc_by_status_mask
            0x0
          ≡ sid ∷ sub_function_as_u8 sub_function ∷ 0x0 ∷ [])

  test_compose_request_0x02 : TestComposeRequest0x02
  unfolding compose_report_number_of_dtc_by_status_mask_request
  test_compose_request_0x02 =
      (_, sub_functions.try_from-as_u8 SubFunction.report_dtc_by_status_mask, refl)

  abbrev TestParseResponse0x02 : Type 0
  TestParseResponse0x02 =
      (sub_function : SubFunction) × (sub_functions.try_from 0x2 ≡ variant sub_function)
      × (parse_report_dtcs
            (positive_sid ∷ sub_function_as_u8 sub_function ∷ 0xFF ∷ pushed four_records)
          ≡ ok (
              UdsResponse.read_dtc_information (
                parsed
                  (ReadDtcInformationResponse.report_dtc_by_status_mask (report_of four_records)))))

  test_parse_response_0x02 : TestParseResponse0x02
  unfolding parse_report_dtcs push_dtc_records dtcs_report
  test_parse_response_0x02 = (
    SubFunction.report_dtc_by_status_mask,
    sub_functions.try_from-as_u8 SubFunction.report_dtc_by_status_mask,
    rw (sub_functions.try_from-as_u8 SubFunction.report_dtc_by_status_mask),
  )

  abbrev TestParseEmptyResponse0x02 : Type 0
  TestParseEmptyResponse0x02 =
      (sub_function : SubFunction) × (sub_functions.try_from 0x2 ≡ variant sub_function)
      × (parse_report_dtcs (positive_sid ∷ sub_function_as_u8 sub_function ∷ 0xFF ∷ pushed [])
          ≡ ok (
              UdsResponse.read_dtc_information
                (parsed (ReadDtcInformationResponse.report_dtc_by_status_mask (report_of [])))))

  test_parse_empty_response_0x02 : TestParseEmptyResponse0x02
  unfolding parse_report_dtcs push_dtc_records dtcs_report
  test_parse_empty_response_0x02 = (
    SubFunction.report_dtc_by_status_mask,
    sub_functions.try_from-as_u8 SubFunction.report_dtc_by_status_mask,
    rw (sub_functions.try_from-as_u8 SubFunction.report_dtc_by_status_mask),
  )

  abbrev TestComposeRequestIso0x04 : Type 0
  TestComposeRequestIso0x04 =
      (sub_function : SubFunction) × (sub_functions.try_from 0x4 ≡ variant sub_function)
      × (compose_report_dtc_snapshot_request sub_function 0x12345678 0xFF
          ≡ sid
            ∷ sub_function_as_u8 sub_function
            ∷ as_u8 (shr 0x12345678 16)
            ∷ as_u8 (shr 0x12345678 8)
            ∷ as_u8 0x12345678
            ∷ 0xFF
            ∷ [])

  test_compose_request_iso_0x04 : TestComposeRequestIso0x04
  unfolding compose_report_dtc_snapshot_request
  test_compose_request_iso_0x04 =
      (_, sub_functions.try_from-as_u8 SubFunction.report_dtc_snapshot_record_by_dtc_number, refl)

  -- The same request as for the snapshot record, and not that of the extended data.
  abbrev TestComposeRequestIso0x06 : Type 0
  TestComposeRequestIso0x06 =
      (sub_function : SubFunction) × (sub_functions.try_from 0x4 ≡ variant sub_function)
      × (compose_report_dtc_snapshot_request sub_function 0x12345678 0xFF
          ≡ sid
            ∷ sub_function_as_u8 sub_function
            ∷ as_u8 (shr 0x12345678 16)
            ∷ as_u8 (shr 0x12345678 8)
            ∷ as_u8 0x12345678
            ∷ 0xFF
            ∷ [])

  test_compose_request_iso_0x06 : TestComposeRequestIso0x06
  unfolding compose_report_dtc_snapshot_request
  test_compose_request_iso_0x06 =
      (_, sub_functions.try_from-as_u8 SubFunction.report_dtc_snapshot_record_by_dtc_number, refl)

  -- It is not marked as a test, so nothing runs it.
  abbrev TestComposeRequest0x0e : Type 0
  TestComposeRequest0x0e =
      (sub_function : SubFunction) × (sub_functions.try_from 0x0E ≡ variant sub_function)
      × (sid ∷ 0x0E ∷ [] ≡ compose_request_short sub_function)

  test_compose_request_0x0e : TestComposeRequest0x0e
  unfolding compose_request_short
  test_compose_request_0x0e =
      (_, sub_functions.try_from-as_u8 SubFunction.report_most_recent_confirmed_dtc, refl)

  abbrev TestParseResponse0x0e : Type 0
  TestParseResponse0x0e =
      (sub_function : SubFunction) × (sub_functions.try_from 0x0E ≡ variant sub_function)
      × (parse_report_dtcs
            (positive_sid ∷ sub_function_as_u8 sub_function ∷ 0xFF ∷ pushed one_record)
          ≡ ok (
              UdsResponse.read_dtc_information (
                parsed (
                  ReadDtcInformationResponse.report_most_recent_confirmed_dtc
                    (report_of one_record)))))

  test_parse_response_0x0e : TestParseResponse0x0e
  unfolding parse_report_dtcs push_dtc_records dtcs_report
  test_parse_response_0x0e = (
    SubFunction.report_most_recent_confirmed_dtc,
    sub_functions.try_from-as_u8 SubFunction.report_most_recent_confirmed_dtc,
    rw (sub_functions.try_from-as_u8 SubFunction.report_most_recent_confirmed_dtc),
  )
