-- ===== src/ReadDataByIdentifier/Format.antt =====
-- What the client accepts as the response of the service ReadDataByIdentifier.
use uds_rs.Base.{
  ℕ, List, [], ◌∷◌, ◌++◌, ◌≡◌, ◌↔◌, ◌∙◌, ok, arith, All, All-append_right, IsByte, >>=-eq-ok,
  Bool-cases, inl, inr, ◌!=◌,
}
use mathlib.Core.List.{append_assoc, append-nil}
use uds_rs.Response.{UdsResponse, parsed, DataRecord}
use uds_rs.ReadDataByIdentifier.{
  next_record, parse_records, parse_read_data_by_identifier_tuple_response,
}
use uds_rs.ReadDataByIdentifier.Records.{
  Laid, end, exact, all, Read, read_exact, read_all, next_record_exact, next_record_all,
  next_record_ok,
}

module _ (message : List ℕ) where
  Laid-parse_records :
      (acc : List DataRecord) {requested : List (ℕ × ℕ)} {records : List DataRecord} {body : List ℕ}
      → Laid requested records body
      → All IsByte body
      → parse_records message acc requested body ≡ ok (acc ++ records)
  unfolding parse_records
  Laid-parse_records acc end b = rw append-nil
  Laid-parse_records acc (exact {did = did} {len = len} bytes tail n ne laid) b =
      rw (next_record_exact message did len bytes tail (omega arith) n ne) (
        Laid-parse_records (acc ++ (record { data_identifier = did; bytes = bytes } ∷ [])) laid
          (All-append_right IsByte bytes tail b.1.1)
        ∙ simp append_assoc)
  Laid-parse_records acc (all {did = did} {len = len} bytes e laid) b =
      rw (next_record_all message did len bytes (omega arith) e) (
        Laid-parse_records (acc ++ (record { data_identifier = did; bytes = bytes } ∷ [])) laid tt
        ∙ simp append_assoc)

  Read-Laid :
      {did len : ℕ} {rest : List ℕ} {r : DataRecord} {tail : List ℕ} {requested : List (ℕ × ℕ)}
      {records : List DataRecord}
      → Read message did len rest r tail
      → Laid requested records tail
      → Laid ((did, len) ∷ requested) (r ∷ records) rest
  Read-Laid (read_exact bytes tail n ne e) laid = rw e (exact bytes tail n ne laid)
  Read-Laid (read_all bytes n e) laid = rw e (all bytes n laid)

  Read-IsByte :
      {did len : ℕ} {rest : List ℕ} {r : DataRecord} {tail : List ℕ}
      → Read message did len rest r tail
      → All IsByte rest
      → All IsByte tail
  Read-IsByte (read_exact bytes tail n ne e) b = All-append_right IsByte bytes tail (rw e at b).1.1
  Read-IsByte (read_all bytes n e) b = tt

  parse_records-Laid :
      (requested : List (ℕ × ℕ)) (acc : List DataRecord) (body : List ℕ) {out : List DataRecord}
      → All IsByte body
      → parse_records message acc requested body ≡ ok out
      → (records : List DataRecord) × Laid requested records body × (out ≡ acc ++ records)
  unfolding parse_records
  parse_records-Laid [] acc body b h = ([], end, rw append-nil (ground arith))
  parse_records-Laid ((did, len) ∷ requested) acc body b h =
      let ((r, tail), e, h') = >>=-eq-ok (next_record message did len body) _ h in
      let read = next_record_ok message did len body r tail b e in
      let (records, laid, same) =
        parse_records-Laid requested (acc ++ (r ∷ [])) tail (Read-IsByte read b) h' in
      (r ∷ records, Read-Laid read laid, same ∙ append_assoc acc (r ∷ []) records)

abbrev pub Accepts : List (ℕ × ℕ) → List ℕ → UdsResponse → Type 0
Accepts requested message response =
    (records : List DataRecord) × (body : List ℕ) × Laid requested records body
    × (message ≡ 0x62 ∷ body)
    × (response ≡ UdsResponse.read_data_by_identifier (parsed (record { data_records = records })))

parse-Accepts :
    (requested : List (ℕ × ℕ)) (message : List ℕ) (response : UdsResponse)
    → All IsByte message
    → parse_read_data_by_identifier_tuple_response requested message ≡ ok response
    → Accepts requested message response
unfolding parse_read_data_by_identifier_tuple_response
parse-Accepts requested [] response b h = absurd (ground arith)
parse-Accepts requested (sid ∷ body) response b h = elim (Bool-cases (sid != 0x62)) [
  | inl foreign ↦ cc (rw foreign at h)
  | inr own ↦
      let (out, e, e') = >>=-eq-ok (parse_records (sid ∷ body) [] requested body) _ (rw own at h) in
      let (records, laid, same) = parse_records-Laid (sid ∷ body) requested [] body b.1 e in
      (records, body, laid, ground arith, ground arith)
]

Accepts-parse :
    (requested : List (ℕ × ℕ)) (records : List DataRecord) (body : List ℕ)
    → All IsByte body
    → Laid requested records body
    → parse_read_data_by_identifier_tuple_response requested (0x62 ∷ body)
      ≡ ok (UdsResponse.read_data_by_identifier (parsed (record { data_records = records })))
unfolding parse_read_data_by_identifier_tuple_response
Accepts-parse requested records body b laid = rw (Laid-parse_records (0x62 ∷ body) [] laid b)

-- Of a message of bytes, the client accepts exactly one that holds, after the SID 0x62, a record for
-- each request: its identifier and as many bytes as asked for, or all that are left where
-- `u32::MAX` is asked for. It returns those records, in the order of the requests.
pub parse_read_data_by_identifier_tuple_response-iff-Accepts :
    (requested : List (ℕ × ℕ)) (message : List ℕ) (response : UdsResponse)
    → All IsByte message
    → (parse_read_data_by_identifier_tuple_response requested message ≡ ok response)
      ↔ Accepts requested message response
parse_read_data_by_identifier_tuple_response-iff-Accepts requested message response b = (
  parse-Accepts requested message response b,
  λ (records, body, laid, e, e').
      rw (e, e') (Accepts-parse requested records body (rw e at b).1 laid),
)
