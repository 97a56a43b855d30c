-- ===== src/DiagnosticSessionControl.antt =====
-- src/uds/diagnostic_session_control.rs: the service DiagnosticSessionControl (0x10).
pub mod Format
use uds_rs.Base.{ℕ, ◌+◌, List, [], ◌∷◌, ok, ◌>>=◌, u16_from}
use uds_rs.NumEnum.{TryFromPrimitive}
use uds_rs.Definitions.{send_receive_sid_offset, negative_response_code_as_u8}
use uds_rs.Response.{
  DataFormat, parsed, UdsResponse, UdsError, EcuResponseResult, next_or, check_sid,
}
use uds_rs.Client.{Call, done, await_call, Tokio, UdsClient, send_and_receive}

abbrev pub diagnostic_session_control_sid : ℕ
diagnostic_session_control_sid = 0x10

unfoldable pub compose_diagnostic_session_control_request : ℕ → List ℕ
compose_diagnostic_session_control_request session_id =
    diagnostic_session_control_sid ∷ session_id ∷ []

unfoldable pub parse_diagnostic_session_control_response : List ℕ → EcuResponseResult
unfolding check_sid
parse_diagnostic_session_control_response raw_response = do
  rest ←
      check_sid UdsError.response_empty (diagnostic_session_control_sid + send_receive_sid_offset)
        raw_response
  (session, rest) ← next_or (UdsError.invalid_length raw_response) rest
  (p2_hi, rest) ← next_or (UdsError.invalid_length raw_response) rest
  (p2_lo, rest) ← next_or (UdsError.invalid_length raw_response) rest
  (p2s_hi, rest) ← next_or (UdsError.invalid_length raw_response) rest
  (p2s_lo, _) ← next_or (UdsError.invalid_length raw_response) rest
  ok (
      UdsResponse.diagnostic_session_control (
        parsed (record {
          session = session;
          p2 = u16_from p2_hi p2_lo;
          p2_star = u16_from p2s_hi p2s_lo;
        })))

module _ ⦃nrcs : TryFromPrimitive negative_response_code_as_u8⦄ where
  unfoldable pub diagnostic_session_control :
      {W : Type 0} → Tokio W → UdsClient W → ℕ → W → Call W UdsResponse
  unfolding compose_diagnostic_session_control_request
  diagnostic_session_control tokio self session_id w =
      await_call
        (send_and_receive tokio self (compose_diagnostic_session_control_request session_id) w)
        λ raw_response w. done (parse_diagnostic_session_control_response raw_response) w
