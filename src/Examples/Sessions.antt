-- ===== src/Examples/Sessions.antt =====
-- Sessions of two calls: what they put on the bus, and an answer that is late.
use uds_rs.Base.{◌≡◌, none, ok, err, ℕ, refl, List, [], ◌∷◌}
use uds_rs.Definitions.{ServiceIdentifier, NegativeResponseCode}
use uds_rs.Communication.{send, receive}
use uds_rs.Response.{ResetType, UdsResponse, parsed}
use uds_rs.Client.{
  done, transmit, on_nrc, on_response, retry_loop, send_and_receive, parse_for_error,
}
use uds_rs.EcuReset.{ecu_reset, parse_ecu_reset_response}
use uds_rs.ClearDiagnosticInformation.{
  clear_diagnostic_information, parse_clear_diagnostic_information_response,
}
use uds_rs.Services.Requests.{Requests}
use uds_rs.Session.{Reaches, start, called, reset, clear}
use uds_rs.Session.Reached.{Reaches-Keeps}
use uds_rs.Examples.Tables.{
  negative_response_codes_derive, reset_types_derive, sub_functions_derive, dtc_formats_derive,
}
use uds_rs.Examples.Servers.{impatient}
use uds_rs.Client.Exchange.{rejection}
use uds_rs.Examples.Ecu.{Bus, bus, client, patient}
use uds_rs.Examples.Conclusions.{AllSent, scripted-Keeps}

-- The message is a request of a service.
abbrev OfService : List ℕ → Type 0
OfService message = (s : ServiceIdentifier) × Requests s message

abbrev session_end : Bus
session_end = record {
  answers = [];
  sent = (0x14 ∷ 0xFF ∷ 0xFF ∷ 0xFF ∷ []) ∷ (0x11 ∷ 0x01 ∷ []) ∷ [];
}

-- DTCs are cleared, and the reset is answered with the response of another service.
session : Reaches patient client (bus ((0x54 ∷ []) ∷ (0x54 ∷ []) ∷ [])) session_end
unfolding ecu_reset parse_ecu_reset_response clear_diagnostic_information
    parse_clear_diagnostic_information_response send_and_receive transmit retry_loop on_response
    on_nrc parse_for_error send receive
session = called (called start (clear 0xFFFFFF) tt refl) (reset ResetType.hard_reset) tt refl

Reaches-Keeps_example : AllSent OfService session_end
Reaches-Keeps_example =
    Reaches-Keeps patient client (AllSent OfService)
      (λ s request own. scripted-Keeps OfService request (s, own))
      (bus ((0x54 ∷ []) ∷ (0x54 ∷ []) ∷ [])) session_end tt session

-- The answer to the first reset comes after the time limit. It stays on the socket, and the next call,
-- of another kind of reset, returns it as its own.
run_elapsed :
    ecu_reset impatient client ResetType.soft_reset
      (bus ((0x7F ∷ 0x11 ∷ 0x78 ∷ []) ∷ (0x51 ∷ 0x03 ∷ []) ∷ []))
    ≡ done
        (err (rejection 0x11 NegativeResponseCode.request_correctly_received_response_pending))
        (record { answers = (0x51 ∷ 0x03 ∷ []) ∷ []; sent = (0x11 ∷ 0x03 ∷ []) ∷ [] })
unfolding ecu_reset parse_ecu_reset_response send_and_receive transmit retry_loop on_response on_nrc
    parse_for_error send receive
run_elapsed = refl

run_late :
    ecu_reset impatient client ResetType.hard_reset
      (record { answers = (0x51 ∷ 0x03 ∷ []) ∷ []; sent = (0x11 ∷ 0x03 ∷ []) ∷ [] })
    ≡ done
        (ok (
          UdsResponse.ecu_reset
            (parsed (record { reset_type = ResetType.soft_reset; power_down_time = none }))))
        (record { answers = []; sent = (0x11 ∷ 0x03 ∷ []) ∷ (0x11 ∷ 0x01 ∷ []) ∷ [] })
unfolding ecu_reset parse_ecu_reset_response send_and_receive transmit retry_loop on_response on_nrc
    parse_for_error send receive
run_late = refl
