-- ===== src/ReadDataByIdentifier.antt =====
-- src/uds/read_data_by_identifier.rs: the service ReadDataByIdentifier (0x22).
pub mod Request
pub mod Records
pub mod Format
pub mod Methods
use uds_rs.Base.{
  ℕ, zero, suc, ◌+◌, ◌-◌, ◌^◌, List, [], ◌∷◌, ◌++◌, map, Result, ok, err, ◌>>=◌, ◌!=◌, ◌==◌,
  if◌then◌else◌, as_u8, shr, u16_from,
}
use uds_rs.NumEnum.{TryFromPrimitive}
use uds_rs.Definitions.{send_receive_sid_offset, negative_response_code_as_u8}
use uds_rs.Response.{
  DataFormat, parsed, raw, UdsResponse, UdsError, EcuResponseResult, DataRecord,
  ReadDataByIdentifierResponse, next_or, check_sid,
}
use uds_rs.Client.{Call, done, await_call, Tokio, UdsClient, send_and_receive}

abbrev pub read_data_by_identifier_sid : ℕ
read_data_by_identifier_sid = 0x22

abbrev pub u32_max : ℕ
u32_max = 2 ^ 32 - 1

-- The `for` loop over the identifiers, from a request that it has begun.
unfoldable pub push_identifiers : List ℕ → List ℕ → List ℕ
push_identifiers request [] = request
push_identifiers request (i ∷ data_identifiers) =
    push_identifiers ((request ++ (as_u8 (shr i 8) ∷ [])) ++ (as_u8 i ∷ [])) data_identifiers

unfoldable pub compose_read_data_by_identifier_request : List ℕ → List ℕ
unfolding push_identifiers
compose_read_data_by_identifier_request data_identifiers =
    push_identifiers (read_data_by_identifier_sid ∷ []) data_identifiers

-- The response that has passed the test of the SID is not empty, so `raw_response[1..]` is what
-- follows the SID.
unfoldable pub parse_read_data_by_identifier_response : List ℕ → EcuResponseResult
unfolding check_sid
parse_read_data_by_identifier_response raw_response = do
  rest ←
      check_sid UdsError.response_empty (read_data_by_identifier_sid + send_receive_sid_offset)
        raw_response
  ok (UdsResponse.read_data_by_identifier (raw rest))

-- `for _ in 0..len { data_record.push(*response_iterator.next().ok_or(e)?) }`
unfoldable pub push_exactly : UdsError → ℕ → List ℕ → List ℕ → Result (List ℕ × List ℕ) UdsError
push_exactly e zero data_record rest = ok (data_record, rest)
push_exactly e (suc len) data_record [] = err e
push_exactly e (suc len) data_record (x ∷ rest) = push_exactly e len (data_record ++ (x ∷ [])) rest

-- The `loop` that pushes until the iterator ends.
unfoldable pub push_all : List ℕ → List ℕ → List ℕ × List ℕ
push_all data_record [] = (data_record, [])
push_all data_record (x ∷ rest) = push_all (data_record ++ (x ∷ [])) rest

-- One pass of the loop over the requested identifiers: a record, and what the iterator has left.
unfoldable pub next_record : List ℕ → ℕ → ℕ → List ℕ → Result (DataRecord × List ℕ) UdsError
next_record raw_response did len rest = do
  (msb, rest) ← next_or (UdsError.invalid_length raw_response) rest
  (lsb, rest) ← next_or (UdsError.invalid_length raw_response) rest
  if did != u16_from msb lsb
      then err (UdsError.did_mismatch did (u16_from msb lsb) raw_response)
      else (do
        (data_record, rest) ←
            if len != u32_max
            then push_exactly (UdsError.invalid_length raw_response) len [] rest
            else ok (push_all [] rest)
        ok (record { data_identifier = u16_from msb lsb; bytes = data_record }, rest))

unfoldable pub parse_records :
    List ℕ → List DataRecord → List (ℕ × ℕ) → List ℕ → Result (List DataRecord) UdsError
parse_records raw_response data_records [] rest = ok data_records
parse_records raw_response data_records ((did, len) ∷ requested) rest = do
  (data_record, rest) ← next_record raw_response did len rest
  parse_records raw_response (data_records ++ (data_record ∷ [])) requested rest

unfoldable pub parse_read_data_by_identifier_tuple_response :
    List (ℕ × ℕ) → List ℕ → EcuResponseResult
unfolding check_sid
parse_read_data_by_identifier_tuple_response data_identifiers_and_lengths raw_response = do
  rest ←
      check_sid (UdsError.invalid_length raw_response)
        (read_data_by_identifier_sid + send_receive_sid_offset) raw_response
  data_records ← parse_records raw_response [] data_identifiers_and_lengths rest
  ok (UdsResponse.read_data_by_identifier (parsed (record { data_records = data_records })))

module _ ⦃nrcs : TryFromPrimitive negative_response_code_as_u8⦄ where
  module _ {W : Type 0} (tokio : Tokio W) (self : UdsClient W) where
    unfoldable pub read_data_by_identifier_tuple : List (ℕ × ℕ) → W → Call W UdsResponse
    read_data_by_identifier_tuple data_identifiers_and_lengths w =
        let data_identifiers : List ℕ = map (λ p. p.0) data_identifiers_and_lengths in
        await_call
          (send_and_receive tokio self (compose_read_data_by_identifier_request data_identifiers) w)
          λ response w.
            done
              (parse_read_data_by_identifier_tuple_response data_identifiers_and_lengths response) w

    unfoldable pub read_single_data_by_identifier : ℕ → W → Call W UdsResponse
    unfolding read_data_by_identifier_tuple
    read_single_data_by_identifier data_identifier w =
        read_data_by_identifier_tuple ((data_identifier, u32_max) ∷ []) w

    unfoldable pub read_data_by_identifier : List ℕ → W → Call W UdsResponse
    unfolding read_single_data_by_identifier
    read_data_by_identifier (data_identifier ∷ []) w =
        read_single_data_by_identifier data_identifier w
    read_data_by_identifier data_identifiers w =
        await_call
          (send_and_receive tokio self (compose_read_data_by_identifier_request data_identifiers) w)
          λ raw_response w. done (parse_read_data_by_identifier_response raw_response) w
