-- ===== src/WriteDataByIdentifier.antt =====
-- src/uds/write_data_by_identifier.rs: the service WriteDataByIdentifier (0x2E).
pub mod Format
use uds_rs.Base.{ℕ, ◌+◌, List, [], ◌∷◌, ◌++◌, ok, ◌>>=◌, as_u8, shr, u16_from}
use uds_rs.NumEnum.{TryFromPrimitive}
use uds_rs.Definitions.{send_receive_sid_offset, negative_response_code_as_u8}
use uds_rs.Response.{
  DataFormat, parsed, UdsResponse, UdsError, EcuResponseResult, next_or, check_sid,
}
use uds_rs.Client.{Call, done, await_call, Tokio, UdsClient, send_and_receive}

abbrev pub write_data_by_identifier_sid : ℕ
write_data_by_identifier_sid = 0x2E

unfoldable pub compose_write_data_by_identifier_request : ℕ → List ℕ → List ℕ
compose_write_data_by_identifier_request data_identifier data_record =
    (write_data_by_identifier_sid ∷ as_u8 (shr data_identifier 8) ∷ as_u8 data_identifier ∷ [])
    ++ data_record

unfoldable pub parse_write_data_by_identifier_response : List ℕ → EcuResponseResult
unfolding check_sid
parse_write_data_by_identifier_response raw_response = do
  rest ←
      check_sid UdsError.response_empty (write_data_by_identifier_sid + send_receive_sid_offset)
        raw_response
  (msb, rest) ← next_or (UdsError.invalid_length raw_response) rest
  (lsb, _) ← next_or (UdsError.invalid_length raw_response) rest
  ok (UdsResponse.write_data_by_identifier (parsed (record { data_identifier = u16_from msb lsb })))

module _ ⦃nrcs : TryFromPrimitive negative_response_code_as_u8⦄ where
  unfoldable pub write_data_by_identifier :
      {W : Type 0} → Tokio W → UdsClient W → ℕ → List ℕ → W → Call W UdsResponse
  unfolding compose_write_data_by_identifier_request
  write_data_by_identifier tokio self data_identifier data_record w =
      await_call
        (send_and_receive tokio self
          (compose_write_data_by_identifier_request data_identifier data_record) w)
        λ raw_response w. done (parse_write_data_by_identifier_response raw_response) w
