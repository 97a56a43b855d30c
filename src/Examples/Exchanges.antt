-- ===== src/Examples/Exchanges.antt =====
-- The exchange of src/uds.rs at concrete answers of an ECU.
use uds_rs.Base.{◌≢◌, ℕ, zero, suc, ◌-◌, ◌≡◌, refl, List, [], ◌∷◌, ok, err, arith}
use uds_rs.Definitions.{ServiceIdentifier, NegativeResponseCode, to_received_sid, from_received_sid}
use uds_rs.Definitions.Sids.{received_sids_lem}
use uds_rs.Communication.{send, receive}
use uds_rs.Response.{UdsError}
use uds_rs.Client.{
  done, UdsClient, rounds, parse_for_error, transmit, on_nrc, on_response, retry_loop,
  send_and_receive,
}
use uds_rs.Client.Exchange.{rejection, Rejects, Exchange, first, repeated}
use uds_rs.Client.Retry.{send_and_receive_gives_up}
use uds_rs.Client.Ends.{Returns, send_and_receive-Returns}
use uds_rs.Client.RejectedSid.{send_and_receive-rejected_sid}
use uds_rs.Client.Refusals.{parse_for_error_lem}
use uds_rs.Examples.Tables.{negative_response_codes_derive}
use uds_rs.Examples.Ecu.{Bus, bus, client, patient, constant, constant-IsLive}

abbrev pub busy_answer : List ℕ
busy_answer = 0x7F ∷ 0x11 ∷ 0x21 ∷ []

abbrev pub pending_answer : List ℕ
pending_answer = 0x7F ∷ 0x11 ∷ 0x78 ∷ []

-- A busy ECU, then one that answers.
run_busy :
    send_and_receive patient client
      (0x11 ∷ 0x01 ∷ [])
      (bus (busy_answer ∷ busy_answer ∷ (0x51 ∷ 0x01 ∷ []) ∷ []))
    ≡ done (ok (0x51 ∷ 0x01 ∷ [])) (record {
      answers = [];
      sent = (0x11 ∷ 0x01 ∷ []) ∷ (0x11 ∷ 0x01 ∷ []) ∷ (0x11 ∷ 0x01 ∷ []) ∷ [];
    })
unfolding send_and_receive transmit retry_loop on_response on_nrc parse_for_error send receive
run_busy = refl

-- After ResponsePending the request is not sent again.
run_pending :
    send_and_receive patient client
      (0x11 ∷ 0x01 ∷ [])
      (bus (pending_answer ∷ (0x51 ∷ 0x01 ∷ []) ∷ []))
    ≡ done (ok (0x51 ∷ 0x01 ∷ [])) (record { answers = []; sent = (0x11 ∷ 0x01 ∷ []) ∷ [] })
unfolding send_and_receive transmit retry_loop on_response on_nrc parse_for_error send receive
run_pending = refl

pub run_silent :
    send_and_receive patient client (0x11 ∷ 0x01 ∷ []) (bus (pending_answer ∷ []))
    ≡ done
        (err (rejection 0x11 NegativeResponseCode.request_correctly_received_response_pending))
        (record { answers = []; sent = (0x11 ∷ 0x01 ∷ []) ∷ [] })
unfolding send_and_receive transmit retry_loop on_response on_nrc parse_for_error send receive
run_silent = refl

run_empty : send_and_receive patient client [] (bus []) ≡ done (err UdsError.request_empty) (bus [])
unfolding send_and_receive
run_empty = refl

-- An ECU that is always busy.
abbrev busy_client : UdsClient Bus
busy_client = record { socket = record { isotp_socket = constant busy_answer } }

busy-Exchange :
    (n : ℕ) → Exchange patient busy_client 0x11 (0x01 ∷ []) (bus []) n busy_answer (bus [])
unfolding send receive parse_for_error
busy-Exchange zero = first refl refl
busy-Exchange (suc n) = repeated (busy-Exchange n) refl refl refl

send_and_receive_gives_up_example :
    send_and_receive patient busy_client (0x11 ∷ 0x01 ∷ []) (bus [])
    ≡ done (err (rejection 0x11 NegativeResponseCode.busy_repeat_request)) (bus [])
send_and_receive_gives_up_example =
    send_and_receive_gives_up patient busy_client 0x11 (0x01 ∷ []) (bus [])
      (busy-Exchange (rounds - 1)) (omega arith) refl (unfold parse_for_error in refl)

send_and_receive-Returns_example :
    Returns (send_and_receive patient busy_client (0x11 ∷ 0x01 ∷ []) (bus []))
send_and_receive-Returns_example =
    send_and_receive-Returns patient busy_client (constant-IsLive busy_answer) (0x11 ∷ 0x01 ∷ [])
      (bus [])

-- A refusal of ReadDataByIdentifier with an unknown code, on a call of EcuReset.
send_and_receive-rejected_sid_example :
    send_and_receive patient client (0x11 ∷ 0x01 ∷ []) (bus ((0x7F ∷ 0x22 ∷ 0xFF ∷ []) ∷ []))
    ≡ done
        (err (UdsError.unknown_nrc 0x22 0xFF))
        (record { answers = []; sent = (0x11 ∷ 0x01 ∷ []) ∷ [] })
unfolding send receive
send_and_receive-rejected_sid_example =
    (send_and_receive-rejected_sid patient client 0x11 (0x01 ∷ [])
        (bus ((0x7F ∷ 0x22 ∷ 0xFF ∷ []) ∷ [])) 0x22 0xFF _).1.1
      (0, [], omega arith, first refl refl, refl)

received_sids_lem_example :
    (to_received_sid 0x22 ≡ 0x62)
    × (to_received_sid 0x22 ≢ 0x7F)
    × (from_received_sid 0x62 ≡ 0x22)
    × (from_received_sid (to_received_sid 0xF0) ≡ 0xF0)
    × (to_received_sid (from_received_sid 0xF0) ≡ 0xF0)
received_sids_lem_example =
    received_sids_lem ServiceIdentifier.read_data_by_identifier 0xF0 (omega arith)

-- A refusal of four bytes: what follows the code is not read.
parse_for_error_lem_example :
    Rejects 0x11 NegativeResponseCode.conditions_not_correct (0x7F ∷ 0x11 ∷ 0x22 ∷ 0x00 ∷ [])
parse_for_error_lem_example =
    (parse_for_error_lem 0x11 0x80 NegativeResponseCode.conditions_not_correct
        (0x7F ∷ 0x11 ∷ 0x22 ∷ 0x00 ∷ [])).0.1
      (0x00 ∷ [], refl)
