-- ===== src/ReadDataByIdentifier/Request.antt =====
-- The request of the service ReadDataByIdentifier, as a server reads it.
use uds_rs.Base.{ℕ, List, [], ◌∷◌, ◌++◌, ◌≡◌, ◌∙◌, refl, arith, All, IsU16, ◌*◌, ◌+◌, as_u8, shr}
use mathlib.Core.List.{append_assoc, append-nil}
use uds_rs.ReadDataByIdentifier.{push_identifiers, compose_read_data_by_identifier_request}

-- The identifiers of a request, after its first byte.
abbrev pub read_identifiers : List ℕ → List ℕ
read_identifiers (msb ∷ lsb ∷ rest) = (msb * 256 + lsb) ∷ read_identifiers rest
read_identifiers _ = []

-- The identifiers as the client writes them.
abbrev pub identifiers_bytes : List ℕ → List ℕ
identifiers_bytes [] = []
identifiers_bytes (i ∷ is) = as_u8 (shr i 8) ∷ as_u8 i ∷ identifiers_bytes is

push_identifiers_lem :
    (request is : List ℕ) → push_identifiers request is ≡ request ++ identifiers_bytes is
unfolding push_identifiers
push_identifiers_lem request [] = rw append-nil
push_identifiers_lem request (i ∷ is) =
    push_identifiers_lem ((request ++ (as_u8 (shr i 8) ∷ [])) ++ (as_u8 i ∷ [])) is
    ∙ simp append_assoc

pub compose_read_data_by_identifier_request_lem :
    (is : List ℕ) → compose_read_data_by_identifier_request is ≡ 0x22 ∷ identifiers_bytes is
unfolding compose_read_data_by_identifier_request
compose_read_data_by_identifier_request_lem is = push_identifiers_lem (0x22 ∷ []) is

read_identifiers_bytes : (is : List ℕ) → All IsU16 is → read_identifiers (identifiers_bytes is) ≡ is
read_identifiers_bytes [] h = refl
read_identifiers_bytes (i ∷ is) (hi, his) = ground (arith, read_identifiers_bytes is his)

-- The request begins with the SID 0x22, and a server reads back from the rest of it the u16
-- identifiers that the method was called with, in their order.
pub read_identifiers-compose :
    (data_identifiers : List ℕ)
    → All IsU16 data_identifiers
    → (body : List ℕ) × (compose_read_data_by_identifier_request data_identifiers ≡ 0x22 ∷ body)
      × (read_identifiers body ≡ data_identifiers)
read_identifiers-compose is h = (
  identifiers_bytes is,
  compose_read_data_by_identifier_request_lem is,
  read_identifiers_bytes is h,
)
