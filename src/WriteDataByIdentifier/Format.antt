-- ===== src/WriteDataByIdentifier/Format.antt =====
-- The messages of the service WriteDataByIdentifier as the standard lays them out.
use uds_rs.Base.{
  ℕ, List, [], ◌∷◌, ◌++◌, ◌≡◌, ◌↔◌, ok, arith, All, IsByte, IsU16, be_16, ◌*◌, ◌+◌, Option, some,
  none,
}
use uds_rs.Response.{UdsResponse, parsed}
use uds_rs.WriteDataByIdentifier.{
  compose_write_data_by_identifier_request, parse_write_data_by_identifier_response,
}

-- How a server reads the request: the identifier and the data to write.
abbrev pub read_request : List ℕ → Option (ℕ × List ℕ)
read_request (sid ∷ msb ∷ lsb ∷ data_record) = some (msb * 256 + lsb, data_record)
read_request _ = none

-- A server reads back from the request the u16 identifier and the data that the method was called with.
pub read_request-compose :
    (data_identifier : ℕ) (data_record : List ℕ)
    → IsU16 data_identifier
    → read_request (compose_write_data_by_identifier_request data_identifier data_record)
      ≡ some (data_identifier, data_record)
unfolding compose_write_data_by_identifier_request
read_request-compose data_identifier data_record h = ground arith

abbrev pub Accepts : List ℕ → UdsResponse → Type 0
Accepts raw response =
    (data_identifier : ℕ) × (rest : List ℕ) × IsU16 data_identifier
    × (raw ≡ (0x6E ∷ be_16 data_identifier) ++ rest)
    × (response
        ≡ UdsResponse.write_data_by_identifier
            (parsed (record { data_identifier = data_identifier })))

parse-Accepts :
    (raw : List ℕ) (response : UdsResponse)
    → All IsByte raw
    → parse_write_data_by_identifier_response raw ≡ ok response
    → Accepts raw response
unfolding parse_write_data_by_identifier_response
parse-Accepts [] response b h = absurd (ground arith)
parse-Accepts (_ ∷ []) response b h = absurd (ground arith)
parse-Accepts (_ ∷ _ ∷ []) response b h = absurd (ground arith)
parse-Accepts (sid ∷ msb ∷ lsb ∷ rest) response b h =
    (msb * 256 + lsb, rest, omega arith, ground arith, ground arith)

parse-positive_response :
    (data_identifier : ℕ) (rest : List ℕ)
    → IsU16 data_identifier
    → parse_write_data_by_identifier_response ((0x6E ∷ be_16 data_identifier) ++ rest)
      ≡ ok (
          UdsResponse.write_data_by_identifier
            (parsed (record { data_identifier = data_identifier })))
unfolding parse_write_data_by_identifier_response
parse-positive_response data_identifier rest h = ground arith

-- Of a message of bytes, the client accepts exactly one that begins with a positive response, and
-- returns the identifier in it, which need not be the requested one.
pub parse_write_data_by_identifier_response-iff-Accepts :
    (raw : List ℕ) (response : UdsResponse)
    → All IsByte raw
    → (parse_write_data_by_identifier_response raw ≡ ok response) ↔ Accepts raw response
parse_write_data_by_identifier_response-iff-Accepts raw response bytes = (
  parse-Accepts raw response bytes,
  λ (data_identifier, rest, h, e, e'). rw (e, e') (parse-positive_response data_identifier rest h),
)
