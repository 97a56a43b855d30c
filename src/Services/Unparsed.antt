-- ===== src/Services/Unparsed.antt =====
-- The four parse functions that only test the SID.
use uds_rs.Base.{ℕ, List, [], ◌∷◌, ◌≡◌, ◌↔◌, ok, ◌>>=◌, ◌!=◌, Bool-cases, inl, inr, arith}
use uds_rs.Response.{UdsResponse, UdsError, EcuResponseResult, raw, check_sid}
use uds_rs.ClearDiagnosticInformation.{parse_clear_diagnostic_information_response}
use uds_rs.ReadDataByIdentifier.{parse_read_data_by_identifier_response}
use uds_rs.ReadDtcInformation.{
  parse_report_dtc_snapshot_record_by_dtc_number_response,
  parse_report_dtc_ext_data_by_dtc_number_response,
}

-- `parse` accepts the messages that begin with `sid`, and makes `f` of what follows it.
abbrev pub AcceptsSid :
    (List ℕ → EcuResponseResult) → ℕ → (List ℕ → UdsResponse) → List ℕ → UdsResponse → Type 0
AcceptsSid parse sid f message response =
    (parse message ≡ ok response) ↔ ((rest : List ℕ) × (message ≡ sid ∷ rest) × (response ≡ f rest))

checked :
    (f : List ℕ → UdsResponse) (sid : ℕ) (message : List ℕ) (response : UdsResponse)
    → AcceptsSid
        (λ m. check_sid UdsError.response_empty sid m >>= λ rest. ok (f rest))
        sid
        f
        message
        response
unfolding check_sid
checked f sid [] response = (λ h. absurd (ground arith), λ (rest, e, e'). cc)
checked f sid (b ∷ rest) response = (
  λ h. elim (Bool-cases (b != sid)) [
    | inl foreign ↦ cc (rw foreign at h)
    | inr own ↦ let h' = rw own at h in (rest, ground arith, ground arith)
  ],
  λ (rest', e, e'). ground arith,
)

-- The functions that do not parse what follows the SID accept exactly the messages that begin with
-- the SID of the service's positive response, also one with nothing behind it, and hand on all that
-- follows it, or nothing for ClearDiagnosticInformation.
pub unparsed-AcceptsSid :
    (message : List ℕ) (response : UdsResponse)
    → AcceptsSid parse_clear_diagnostic_information_response 0x54
        (λ rest. UdsResponse.clear_diagnostic_information)
        message
        response
      × AcceptsSid parse_read_data_by_identifier_response 0x62
          (λ rest. UdsResponse.read_data_by_identifier (raw rest))
          message
          response
      × AcceptsSid parse_report_dtc_snapshot_record_by_dtc_number_response 0x59
          (λ rest. UdsResponse.read_dtc_information (raw rest))
          message
          response
      × AcceptsSid parse_report_dtc_ext_data_by_dtc_number_response 0x59
          (λ rest. UdsResponse.read_dtc_information (raw rest))
          message
          response
unfolding parse_clear_diagnostic_information_response parse_read_data_by_identifier_response
    parse_report_dtc_snapshot_record_by_dtc_number_response
    parse_report_dtc_ext_data_by_dtc_number_response
unparsed-AcceptsSid message response = (
  checked _ 0x54 message response,
  checked _ 0x62 message response,
  checked _ 0x59 message response,
  checked _ 0x59 message response,
)
