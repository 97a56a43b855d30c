-- ===== src/Examples/Calls.antt =====
-- Calls of the client's methods, with an ECU that answers from a script.
use uds_rs.Base.{true, ℕ, ◌≡◌, refl, List, [], ◌∷◌, none, some, ok, err, arith}
use uds_rs.Definitions.{NegativeResponseCode}
use uds_rs.Communication.{send, receive}
use uds_rs.Communication.Options.{IsoTp, UdsSocketOptions, vw, default}
use uds_rs.Response.{UdsResponse, UdsError, parsed, ResetType, ReadDtcInformationResponse}
use uds_rs.Client.{
  done, transmit, on_nrc, on_response, retry_loop, send_and_receive, parse_for_error,
}
use uds_rs.Client.New.{new, client_of, Pads, new-options}
use uds_rs.Client.Sound.{Served}
use uds_rs.Client.Exchange.{Exchange, first}
use uds_rs.EcuReset.{ecu_reset, parse_ecu_reset_response}
use uds_rs.ReadDtcInformation.{
  report_most_recent_confirmed_dtc, parse_report_dtcs, push_dtc_records, dtcs_report,
}
use uds_rs.ReadDataByIdentifier.{
  read_data_by_identifier, read_single_data_by_identifier, read_data_by_identifier_tuple,
  compose_read_data_by_identifier_request, push_identifiers,
  parse_read_data_by_identifier_tuple_response, parse_records, next_record, push_exactly, push_all,
  u32_max,
}
use uds_rs.ReadDataByIdentifier.Methods.{read_data_by_identifier-ReturnsParsed}
use uds_rs.Services.{methods-ReturnsParsed, reports-ReturnsParsed}
use uds_rs.Services.Endings.{ecu_reset-delayed_refusal}
use uds_rs.Examples.Tables.{
  negative_response_codes_derive, reset_types_derive, sub_functions_derive, dtc_formats_derive,
}
use uds_rs.Examples.Interface.{Flags, bit, set_bits, interface}
use uds_rs.Examples.Ecu.{Bus, bus, client, patient, scripted}

-- What remains of a script of one answer, after one request.
abbrev asked : List ℕ → Bus
asked request = record { answers = []; sent = request ∷ [] }

abbrev reset_answer : UdsResponse
reset_answer =
    UdsResponse.ecu_reset
      (parsed (record { reset_type = ResetType.hard_reset; power_down_time = none }))

run_reset :
    ecu_reset patient client ResetType.hard_reset (bus ((0x51 ∷ 0x01 ∷ []) ∷ []))
    ≡ done (ok reset_answer) (asked (0x11 ∷ 0x01 ∷ []))
unfolding ecu_reset parse_ecu_reset_response send_and_receive transmit retry_loop on_response on_nrc
    parse_for_error send receive
run_reset = refl

methods-ReturnsParsed_example :
    (message : List ℕ) × Served patient client 0x11
      (0x01 ∷ [])
      (bus ((0x51 ∷ 0x01 ∷ []) ∷ []))
      message
      (asked (0x11 ∷ 0x01 ∷ []))
    × (parse_ecu_reset_response message ≡ ok reset_answer)
methods-ReturnsParsed_example =
    (methods-ReturnsParsed patient client (bus ((0x51 ∷ 0x01 ∷ []) ∷ [])) reset_answer
        (asked (0x11 ∷ 0x01 ∷ [])) ResetType.hard_reset 0x03 0xFFFF33 0xF190 (0x01 ∷ [])).0.0
      run_reset

abbrev dtcs_answer : UdsResponse
dtcs_answer = UdsResponse.read_dtc_information (
    parsed (
      ReadDtcInformationResponse.report_most_recent_confirmed_dtc (record {
        dtc_status_availability_mask = 0xFF;
        dtc_and_status_records = record { dtc = 0x010203; status_of_dtc = 0x2F } ∷ [];
      })))

abbrev dtcs_message : List ℕ
dtcs_message = 0x59 ∷ 0x0E ∷ 0xFF ∷ 0x01 ∷ 0x02 ∷ 0x03 ∷ 0x2F ∷ []

run_dtcs :
    report_most_recent_confirmed_dtc patient client (bus (dtcs_message ∷ []))
    ≡ done (ok dtcs_answer) (asked (0x19 ∷ 0x0E ∷ []))
unfolding report_most_recent_confirmed_dtc parse_report_dtcs push_dtc_records dtcs_report
    send_and_receive transmit retry_loop on_response on_nrc parse_for_error send receive
run_dtcs = refl

reports-ReturnsParsed_example :
    (message : List ℕ) × Served patient client 0x19
      (0x0E ∷ [])
      (bus (dtcs_message ∷ []))
      message
      (asked (0x19 ∷ 0x0E ∷ []))
    × (parse_report_dtcs message ≡ ok dtcs_answer)
reports-ReturnsParsed_example =
    (reports-ReturnsParsed patient client (bus (dtcs_message ∷ [])) dtcs_answer
        (asked (0x19 ∷ 0x0E ∷ [])) 0xFF 0x010203 0x01).4.0
      run_dtcs

abbrev record_answer : UdsResponse
record_answer = UdsResponse.read_data_by_identifier (
    parsed
      (record { data_records = record { data_identifier = 0xF190; bytes = 1 ∷ 2 ∷ 3 ∷ [] } ∷ [] }))

abbrev record_message : List ℕ
record_message = 0x62 ∷ 0xF1 ∷ 0x90 ∷ 1 ∷ 2 ∷ 3 ∷ []

run_read :
    read_data_by_identifier patient client (0xF190 ∷ []) (bus (record_message ∷ []))
    ≡ done (ok record_answer) (asked (0x22 ∷ 0xF1 ∷ 0x90 ∷ []))
unfolding read_data_by_identifier read_single_data_by_identifier read_data_by_identifier_tuple
    compose_read_data_by_identifier_request push_identifiers
    parse_read_data_by_identifier_tuple_response parse_records next_record push_exactly push_all
    send_and_receive transmit retry_loop on_response on_nrc parse_for_error send receive
run_read = refl

read_data_by_identifier-ReturnsParsed_example :
    (message : List ℕ) × Served patient client 0x22
      (0xF1 ∷ 0x90 ∷ [])
      (bus (record_message ∷ []))
      message
      (asked (0x22 ∷ 0xF1 ∷ 0x90 ∷ []))
    × (parse_read_data_by_identifier_tuple_response ((0xF190, u32_max) ∷ []) message
        ≡ ok record_answer)
read_data_by_identifier-ReturnsParsed_example =
    (read_data_by_identifier-ReturnsParsed patient client (bus (record_message ∷ [])) record_answer
        (asked (0x22 ∷ 0xF1 ∷ 0x90 ∷ [])) ((0xF190, 3) ∷ []) 0xF190 0x0102 []).1.0
      run_read

-- ResponsePending, and then a refusal.
abbrev refusing : Bus
refusing = bus ((0x7F ∷ 0x11 ∷ 0x78 ∷ []) ∷ (0x7F ∷ 0x11 ∷ 0x22 ∷ []) ∷ [])

refusing-Exchange :
    Exchange patient client 0x11
      (0x01 ∷ [])
      refusing
      0
      (0x7F ∷ 0x11 ∷ 0x78 ∷ [])
      (record { answers = (0x7F ∷ 0x11 ∷ 0x22 ∷ []) ∷ []; sent = (0x11 ∷ 0x01 ∷ []) ∷ [] })
unfolding send receive
refusing-Exchange = first refl refl

ecu_reset-delayed_refusal_example :
    ecu_reset patient client ResetType.hard_reset refusing
    ≡ done
        (err (UdsError.sid_mismatch 0x51 0x7F (0x7F ∷ 0x11 ∷ 0x22 ∷ [])))
        (asked (0x11 ∷ 0x01 ∷ []))
unfolding receive parse_for_error
ecu_reset-delayed_refusal_example =
    ecu_reset-delayed_refusal patient client refusing ResetType.hard_reset
      NegativeResponseCode.conditions_not_correct (asked (0x11 ∷ 0x01 ∷ [])) (omega arith)
      refusing-Exchange refl refl

abbrev plain : IsoTp Bus
plain = interface (ok scripted)

abbrev vw_options : UdsSocketOptions plain
vw_options = record {
  isotp_options = some (set_bits (bit 3) (bit 2) true);
  rx_flow_control_options = none;
  link_layer_options = none;
}

-- Both parts: the socket is opened plainly, and with options that ask for padding in both directions.
new-options_example :
    (new plain "can0" 0x710 0x77A (default plain) (bus [])
      ≡ client_of plain (plain.open_socket "can0" 0x710 0x77A (bus [])))
    × ((base : Flags) × (initial : Flags) × (runtime : Flags) × Pads plain initial
        × Pads plain runtime
        × (plain.new initial 1000 255 0x55 0xAA 255 ≡ ok base)
        × (new plain "can0" 0x710 0x77A vw_options (bus [])
            ≡ client_of plain (
                plain.open_with_opts "can0" 0x710 0x77A
                  (some (plain.set_flags base runtime))
                  none
                  none
                  (bus []))))
new-options_example = new-options plain "can0" 0x710 0x77A vw_options (bus []) (unfold vw in refl)
