-- ===== src/ClearDiagnosticInformation.antt =====
-- src/uds/clear_diagnostic_information.rs: the service ClearDiagnosticInformation (0x14).
use uds_rs.Base.{ℕ, ◌+◌, List, [], ◌∷◌, ok, ◌>>=◌, as_u8, shr}
use uds_rs.NumEnum.{TryFromPrimitive}
use uds_rs.Definitions.{send_receive_sid_offset, negative_response_code_as_u8}
use uds_rs.Response.{UdsResponse, UdsError, EcuResponseResult, check_sid}
use uds_rs.Client.{Call, done, await_call, Tokio, UdsClient, send_and_receive}

abbrev pub clear_diagnostic_information_sid : ℕ
clear_diagnostic_information_sid = 0x14

unfoldable pub compose_clear_diagnostic_information_request : ℕ → List ℕ
compose_clear_diagnostic_information_request group_of_dtc =
    clear_diagnostic_information_sid
    ∷ as_u8 (shr group_of_dtc 16)
    ∷ as_u8 (shr group_of_dtc 8)
    ∷ as_u8 group_of_dtc
    ∷ []

unfoldable pub parse_clear_diagnostic_information_response : List ℕ → EcuResponseResult
unfolding check_sid
parse_clear_diagnostic_information_response raw_response = do
  _ ←
      check_sid UdsError.response_empty (clear_diagnostic_information_sid + send_receive_sid_offset)
        raw_response
  ok UdsResponse.clear_diagnostic_information

module _ ⦃nrcs : TryFromPrimitive negative_response_code_as_u8⦄ where
  unfoldable pub clear_diagnostic_information :
      {W : Type 0} → Tokio W → UdsClient W → ℕ → W → Call W UdsResponse
  unfolding compose_clear_diagnostic_information_request
  clear_diagnostic_information tokio self group_of_dtc w =
      await_call
        (send_and_receive tokio self (compose_clear_diagnostic_information_request group_of_dtc) w)
        λ raw_response w. done (parse_clear_diagnostic_information_response raw_response) w
