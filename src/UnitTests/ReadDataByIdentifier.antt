-- ===== src/UnitTests/ReadDataByIdentifier.antt =====
-- src/uds/read_data_by_identifier.rs: its unit tests.
use uds_rs.Base.{ℕ, ◌+◌, ◌≡◌, refl, List, [], ◌∷◌, ok, err}
use uds_rs.Definitions.{send_receive_sid_offset}
use uds_rs.Response.{UdsResponse, UdsError, parsed}
use uds_rs.ReadDataByIdentifier.{
  read_data_by_identifier_sid, u32_max, push_identifiers, compose_read_data_by_identifier_request,
  push_exactly, push_all, next_record, parse_records, parse_read_data_by_identifier_tuple_response,
}

abbrev positive_sid : ℕ
positive_sid = read_data_by_identifier_sid + send_receive_sid_offset

abbrev TestOkMessage : Type 0
TestOkMessage =
    let data_identifiers_and_lengths : List (ℕ × ℕ) = (10, 1) ∷ (20, 10) ∷ [] in
    let dummy_message : List ℕ =
      positive_sid ∷ 0 ∷ 10 ∷ 0 ∷ 0 ∷ 20 ∷ 0 ∷ 0 ∷ 0 ∷ 0 ∷ 0 ∷ 1 ∷ 2 ∷ 3 ∷ 4 ∷ 5 ∷ [] in
    parse_read_data_by_identifier_tuple_response data_identifiers_and_lengths dummy_message
    ≡ ok (
        UdsResponse.read_data_by_identifier (
          parsed (record {
            data_records =
                record { data_identifier = 10; bytes = 0 ∷ [] }
                ∷ record {
                  data_identifier = 20;
                  bytes = 0 ∷ 0 ∷ 0 ∷ 0 ∷ 0 ∷ 1 ∷ 2 ∷ 3 ∷ 4 ∷ 5 ∷ [];
                }
                ∷ [];
          })))

abbrev TestDidMismatch : Type 0
TestDidMismatch =
    let data_identifiers_and_lengths : List (ℕ × ℕ) = (10, 1) ∷ (20, 10) ∷ [] in
    let dummy_message : List ℕ =
      positive_sid ∷ 0 ∷ 10 ∷ 0 ∷ 0 ∷ 21 ∷ 0 ∷ 0 ∷ 0 ∷ 0 ∷ 0 ∷ 1 ∷ 2 ∷ 3 ∷ 4 ∷ 5 ∷ [] in
    parse_read_data_by_identifier_tuple_response data_identifiers_and_lengths dummy_message
    ≡ err (UdsError.did_mismatch 20 21 dummy_message)

abbrev TestSidMismatch : Type 0
TestSidMismatch =
    let data_identifiers_and_lengths : List (ℕ × ℕ) = (10, 1) ∷ (20, 10) ∷ [] in
    let dummy_message : List ℕ =
      (positive_sid + 10) ∷ 0 ∷ 10 ∷ 0 ∷ 0 ∷ 20 ∷ 0 ∷ 0 ∷ 0 ∷ 0 ∷ 0 ∷ 1 ∷ 2 ∷ 3 ∷ 4 ∷ 5 ∷ [] in
    parse_read_data_by_identifier_tuple_response data_identifiers_and_lengths dummy_message
    ≡ err (UdsError.sid_mismatch positive_sid (positive_sid + 10) dummy_message)

abbrev TestInvalidLengthShort : Type 0
TestInvalidLengthShort =
    let data_identifiers_and_lengths : List (ℕ × ℕ) = (10, 1) ∷ (20, 10) ∷ (21, 0) ∷ [] in
    let dummy_message : List ℕ =
      positive_sid ∷ 0 ∷ 10 ∷ 0 ∷ 0 ∷ 20 ∷ 0 ∷ 0 ∷ 0 ∷ 0 ∷ 0 ∷ 1 ∷ 2 ∷ 3 ∷ 4 ∷ 0 ∷ 21 ∷ [] in
    parse_read_data_by_identifier_tuple_response data_identifiers_and_lengths dummy_message
    ≡ err (UdsError.invalid_length dummy_message)

abbrev TestParseWithZeroLen : Type 0
TestParseWithZeroLen =
    let data_identifiers_and_lengths : List (ℕ × ℕ) = (10, u32_max) ∷ [] in
    let dummy_message : List ℕ = positive_sid ∷ 0 ∷ 10 ∷ 32 ∷ 32 ∷ 21 ∷ 65 ∷ 9 ∷ 8 ∷ 7 ∷ 4 ∷ [] in
    parse_read_data_by_identifier_tuple_response data_identifiers_and_lengths dummy_message
    ≡ ok (
        UdsResponse.read_data_by_identifier (
          parsed (record {
            data_records =
                record { data_identifier = 10; bytes = 32 ∷ 32 ∷ 21 ∷ 65 ∷ 9 ∷ 8 ∷ 7 ∷ 4 ∷ [] }
                ∷ [];
          })))

abbrev TestFormulateRequest : Type 0
TestFormulateRequest =
    compose_read_data_by_identifier_request (0x10 ∷ 0x20 ∷ 0x30 ∷ 0x4320 ∷ 0x4200 ∷ [])
    ≡ read_data_by_identifier_sid ∷ 0x0 ∷ 0x10 ∷ 0x0 ∷ 0x20 ∷ 0x0 ∷ 0x30 ∷ 0x43 ∷ 0x20 ∷ 0x42 ∷ 0x00
      ∷ []

unit_tests_lem :
    TestOkMessage × TestDidMismatch × TestSidMismatch × TestInvalidLengthShort
    × TestParseWithZeroLen × TestFormulateRequest
unfolding parse_read_data_by_identifier_tuple_response parse_records next_record push_exactly
    push_all compose_read_data_by_identifier_request push_identifiers
unit_tests_lem = (refl, refl, refl, refl, refl, refl)
