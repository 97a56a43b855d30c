-- ===== src/EcuReset.antt =====
-- src/uds/ecu_reset.rs: the service EcuReset (0x11).
pub mod Format
use uds_rs.Base.{ℕ, ◌+◌, List, [], ◌∷◌, Option, none, some, Result, ok, err, ◌>>=◌}
use uds_rs.NumEnum.{TryFromPrimitive}
use uds_rs.Definitions.{send_receive_sid_offset, negative_response_code_as_u8}
use uds_rs.Response.{
  DataFormat, parsed, UdsResponse, UdsError, EcuResponseResult, ResetType, reset_type_as_u8,
  EcuResetResponse, next_or, check_sid, or_incorrect,
}
use uds_rs.Client.{Call, done, await_call, Tokio, UdsClient, send_and_receive}

abbrev pub ecu_reset_sid : ℕ
ecu_reset_sid = 0x11

unfoldable pub compose_ecu_reset_request : ResetType → List ℕ
compose_ecu_reset_request reset_type = ecu_reset_sid ∷ reset_type_as_u8 reset_type ∷ []

-- The power down time follows only in the response to `EnableRapidPowerShutDown`.
abbrev pub power_down : List ℕ → ResetType → List ℕ → Result (Option ℕ) UdsError
power_down raw_response ResetType.enable_rapid_power_shut_down rest = do
  (time, _) ← next_or (UdsError.invalid_length raw_response) rest
  ok (some time)
power_down raw_response _ rest = ok none

module _ ⦃resets : TryFromPrimitive reset_type_as_u8⦄ where
  unfoldable pub parse_ecu_reset_response : List ℕ → EcuResponseResult
  unfolding check_sid
  parse_ecu_reset_response raw_response = do
    rest ← check_sid UdsError.response_empty (ecu_reset_sid + send_receive_sid_offset) raw_response
    (reset_type_byte, rest) ← next_or (UdsError.invalid_length raw_response) rest
    reset_type ← or_incorrect raw_response (resets.try_from reset_type_byte)
    power_down_time ← power_down raw_response reset_type rest
    ok (
        UdsResponse.ecu_reset
          (parsed (record { reset_type = reset_type; power_down_time = power_down_time })))

  module _ ⦃nrcs : TryFromPrimitive negative_response_code_as_u8⦄ where
    unfoldable pub ecu_reset :
        {W : Type 0} → Tokio W → UdsClient W → ResetType → W → Call W UdsResponse
    unfolding compose_ecu_reset_request
    ecu_reset tokio self reset_type w =
        await_call (send_and_receive tokio self (compose_ecu_reset_request reset_type) w)
          λ raw_response w. done (parse_ecu_reset_response raw_response) w
