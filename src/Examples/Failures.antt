-- ===== src/Examples/Failures.antt =====
-- Failing calls of the client's methods.
use uds_rs.Base.{ℕ, ◌≡◌, ◌⊎◌, refl, List, [], ◌∷◌, none, err}
use uds_rs.Communication.{send, receive}
use uds_rs.Response.{UdsError, ResetType}
use uds_rs.Client.{
  done, transmit, on_nrc, on_response, retry_loop, send_and_receive, parse_for_error,
}
use uds_rs.Client.Conclusion.{Concludes}
use uds_rs.Client.Sound.{Served}
use uds_rs.EcuReset.{ecu_reset, parse_ecu_reset_response}
use uds_rs.Services.Failures.{methods-FailsBy}
use uds_rs.Services.Errors.{Raises}
use uds_rs.Services.Errors.Methods.{methods-Raises}
use uds_rs.Examples.Tables.{
  negative_response_codes_derive, reset_types_derive, sub_functions_derive, dtc_formats_derive,
}
use uds_rs.Examples.Ecu.{bus, client, patient}

-- An ECU that answers EcuReset with the response of another service.
abbrev other_answer : List ℕ
other_answer = 0x50 ∷ 0x01 ∷ []

run_other :
    ecu_reset patient client ResetType.hard_reset (bus (other_answer ∷ []))
    ≡ done
        (err (UdsError.sid_mismatch 0x51 0x50 other_answer))
        (record { answers = []; sent = (0x11 ∷ 0x01 ∷ []) ∷ [] })
unfolding ecu_reset parse_ecu_reset_response send_and_receive transmit retry_loop on_response on_nrc
    parse_for_error send receive
run_other = refl

methods-FailsBy_example :
    Concludes patient client 0x11
      (0x01 ∷ [])
      (bus (other_answer ∷ []))
      (err (UdsError.sid_mismatch 0x51 0x50 other_answer))
      (record { answers = []; sent = (0x11 ∷ 0x01 ∷ []) ∷ [] })
    ⊎ ((raw : List ℕ) × Served patient client 0x11
          (0x01 ∷ [])
          (bus (other_answer ∷ []))
          raw
          (record { answers = []; sent = (0x11 ∷ 0x01 ∷ []) ∷ [] })
        × (parse_ecu_reset_response raw ≡ err (UdsError.sid_mismatch 0x51 0x50 other_answer)))
methods-FailsBy_example =
    (methods-FailsBy patient client (bus (other_answer ∷ []))
        (UdsError.sid_mismatch 0x51 0x50 other_answer)
        (record { answers = []; sent = (0x11 ∷ 0x01 ∷ []) ∷ [] }) ResetType.hard_reset 0xFF 0x01
        0xF190 0xF191 [] [] []).0.0
      run_other

methods-Raises_example :
    Raises (ecu_reset patient client ResetType.hard_reset (bus (other_answer ∷ [])))
methods-Raises_example =
    (methods-Raises patient client ResetType.hard_reset 0xFF 0x01 [] [] [] [] none none
      (bus (other_answer ∷ []))).0
