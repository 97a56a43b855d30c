-- ===== src/UnitTests/ReadMemoryByAddress.antt =====
-- src/uds/read_memory_by_address.rs: its unit tests.
use uds_rs.Base.{◌+◌, ◌≡◌, refl, [], ◌∷◌, none, some, ok, err, value}
use native.Mathlib.Decide.{dec_lt}
use uds_rs.Base.Order.{lt_wf}
use uds_rs.Definitions.{send_receive_sid_offset}
use uds_rs.Response.{UdsResponse, UdsError, parsed}
use uds_rs.ReadMemoryByAddress.{
  read_memory_by_address_sid, convert_from_simple_to_normal, formulate_request, parse_response,
  encode_bytes, encode_bytes_loop, provided_len, request_arguments, last_bytes,
}

abbrev TestOkConvertFromSimpleToNormal : Type 0
TestOkConvertFromSimpleToNormal =
    convert_from_simple_to_normal 0x12345678 0x4321 none none
    ≡ value (ok (0x24, 0x12 ∷ 0x34 ∷ 0x56 ∷ 0x78 ∷ [], 0x43 ∷ 0x21 ∷ []))

abbrev TestOkConvertFromSimpleToNormalSpecifiedMemoryAddressLen : Type 0
TestOkConvertFromSimpleToNormalSpecifiedMemoryAddressLen =
    convert_from_simple_to_normal 0x5678 0x4321 (some 6) none
    ≡ value (ok (0x26, 0x0 ∷ 0x0 ∷ 0x0 ∷ 0x0 ∷ 0x56 ∷ 0x78 ∷ [], 0x43 ∷ 0x21 ∷ []))

abbrev TestOkConvertFromSimpleToNormalSpecifiedMemorySizeLen : Type 0
TestOkConvertFromSimpleToNormalSpecifiedMemorySizeLen =
    convert_from_simple_to_normal 0x5678 0x4321 none (some 3)
    ≡ value (ok (0x32, 0x56 ∷ 0x78 ∷ [], 0x0 ∷ 0x43 ∷ 0x21 ∷ []))

abbrev TestOkConvertFromSimpleToNormalSpecifiedBoth : Type 0
TestOkConvertFromSimpleToNormalSpecifiedBoth =
    convert_from_simple_to_normal 0x5678 0x4321 (some 4) (some 3)
    ≡ value (ok (0x34, 0x0 ∷ 0x0 ∷ 0x56 ∷ 0x78 ∷ [], 0x0 ∷ 0x43 ∷ 0x21 ∷ []))

abbrev TestErrConvertFromSimpleToNormalSpecifiedMemoryAddressLenTooSmall : Type 0
TestErrConvertFromSimpleToNormalSpecifiedMemoryAddressLenTooSmall =
    convert_from_simple_to_normal 0x12345678 0x4321 (some 3) none
    ≡ value (err UdsError.invalid_argument)

abbrev TestErrConvertFromSimpleToNormalSpecifiedMemorySizeLenTooSmall : Type 0
TestErrConvertFromSimpleToNormalSpecifiedMemorySizeLenTooSmall =
    convert_from_simple_to_normal 0x12345678 0x43211234 none (some 3)
    ≡ value (err UdsError.invalid_argument)

abbrev TestErrConvertFromSimpleToNormalSpecifiedMemorySizeLenTooBig : Type 0
TestErrConvertFromSimpleToNormalSpecifiedMemorySizeLenTooBig =
    convert_from_simple_to_normal 0x12345678 0x43211234 none (some 0xFF)
    ≡ value (
        ok (
          0x84,
          0x12 ∷ 0x34 ∷ 0x56 ∷ 0x78 ∷ [],
          0x0 ∷ 0x0 ∷ 0x0 ∷ 0x0 ∷ 0x43 ∷ 0x21 ∷ 0x12 ∷ 0x34 ∷ [],
        ))

abbrev TestErrConvertFromSimpleToNormalSpecifiedMemoryAddressLenTooBig : Type 0
TestErrConvertFromSimpleToNormalSpecifiedMemoryAddressLenTooBig =
    convert_from_simple_to_normal 0x12345678 0x43211234 (some 0xFF) none
    ≡ value (
        ok (
          0x48,
          0x0 ∷ 0x0 ∷ 0x0 ∷ 0x0 ∷ 0x12 ∷ 0x34 ∷ 0x56 ∷ 0x78 ∷ [],
          0x43 ∷ 0x21 ∷ 0x12 ∷ 0x34 ∷ [],
        ))

abbrev TestErrConvertFromSimpleToNormalProvidedAddressTooBig : Type 0
TestErrConvertFromSimpleToNormalProvidedAddressTooBig =
    convert_from_simple_to_normal 0x1122334455667788 0x43211234 none none
    ≡ value (
        ok (
          0x48,
          0x11 ∷ 0x22 ∷ 0x33 ∷ 0x44 ∷ 0x55 ∷ 0x66 ∷ 0x77 ∷ 0x88 ∷ [],
          0x43 ∷ 0x21 ∷ 0x12 ∷ 0x34 ∷ [],
        ))

abbrev TestErrConvertFromSimpleToNormalProvidedSizeTooBig : Type 0
TestErrConvertFromSimpleToNormalProvidedSizeTooBig =
    convert_from_simple_to_normal 0x1122 0x1122334455667788 none none
    ≡ value
        (ok (0x82, 0x11 ∷ 0x22 ∷ [], 0x11 ∷ 0x22 ∷ 0x33 ∷ 0x44 ∷ 0x55 ∷ 0x66 ∷ 0x77 ∷ 0x88 ∷ []))

abbrev TestOkComposeRequest : Type 0
TestOkComposeRequest =
    formulate_request 0x24 (0x4 ∷ 0x32 ∷ 0x12 ∷ 0x1 ∷ []) (0x1 ∷ 0x12 ∷ [])
    ≡ read_memory_by_address_sid ∷ 0x24 ∷ 0x4 ∷ 0x32 ∷ 0x12 ∷ 0x1 ∷ 0x1 ∷ 0x12 ∷ []

abbrev TestOkParseResponse : Type 0
TestOkParseResponse =
    parse_response (
      (read_memory_by_address_sid + send_receive_sid_offset)
      ∷ 1
      ∷ 2
      ∷ 3
      ∷ 4
      ∷ 5
      ∷ 6
      ∷ 7
      ∷ 8
      ∷ 9
      ∷ 10
      ∷ [])
    ≡ value (
        ok (
          UdsResponse.read_memory_by_address
            (parsed (record { data_record = 1 ∷ 2 ∷ 3 ∷ 4 ∷ 5 ∷ 6 ∷ 7 ∷ 8 ∷ 9 ∷ 10 ∷ [] }))))

unit_tests_lem :
    TestOkConvertFromSimpleToNormal × TestOkConvertFromSimpleToNormalSpecifiedMemoryAddressLen
    × TestOkConvertFromSimpleToNormalSpecifiedMemorySizeLen
    × TestOkConvertFromSimpleToNormalSpecifiedBoth
    × TestErrConvertFromSimpleToNormalSpecifiedMemoryAddressLenTooSmall
    × TestErrConvertFromSimpleToNormalSpecifiedMemorySizeLenTooSmall
    × TestErrConvertFromSimpleToNormalSpecifiedMemorySizeLenTooBig
    × TestErrConvertFromSimpleToNormalSpecifiedMemoryAddressLenTooBig
    × TestErrConvertFromSimpleToNormalProvidedAddressTooBig
    × TestErrConvertFromSimpleToNormalProvidedSizeTooBig × TestOkComposeRequest
    × TestOkParseResponse
unfolding convert_from_simple_to_normal provided_len encode_bytes encode_bytes_loop lt_wf dec_lt
    request_arguments last_bytes formulate_request parse_response
unit_tests_lem = (refl, refl, refl, refl, refl, refl, refl, refl, refl, refl, refl, refl)
