-- ===== src/Examples/Program.antt =====
-- Runs of the example program.
use uds_rs.Base.{ℕ, ◌≡◌, refl, List, [], ◌∷◌, none, some, Result, ok, err, ltb, if◌then◌else◌}
use uds_rs.Communication.{ready, Error, IsoTpSocket, UdsCommunicationError, send, receive}
use uds_rs.Communication.Options.{vw, new_socket, is_default}
use uds_rs.Response.{UdsResponse, UdsError, parsed}
use uds_rs.Client.{
  done, UdsClient, transmit, on_nrc, on_response, retry_loop, send_and_receive, parse_for_error,
}
use uds_rs.Client.New.{new}
use uds_rs.Client.Ends.{IsLive}
use uds_rs.ReadDataByIdentifier.{
  read_data_by_identifier, read_single_data_by_identifier, read_data_by_identifier_tuple,
  compose_read_data_by_identifier_request, push_identifiers,
  parse_read_data_by_identifier_tuple_response, parse_records, next_record, push_exactly, push_all,
}
use uds_rs.ReadDtcInformation.{report_dtc_by_status_mask, parse_report_dtcs}
use uds_rs.ClearDiagnosticInformation.{
  clear_diagnostic_information, parse_clear_diagnostic_information_response,
}
use uds_rs.EcuReset.{ecu_reset, parse_ecu_reset_response}
use uds_rs.BasicFunctionality.{Host, main, run_calls}
use uds_rs.BasicFunctionality.Outcome.{Opens, opened, Calls, programs-iff-Ran, main_progress}
use uds_rs.Examples.Tables.{
  negative_response_codes_derive, reset_types_derive, sub_functions_derive,
}
use uds_rs.Examples.Interface.{interface}
use uds_rs.Examples.Servers.{impatient}

-- The world is the log of the program, the latest entry first.
abbrev Log : Type 0
Log = List (Result UdsResponse UdsError)

abbrev logging : Host Log ℕ
logging = record {
  init = λ w. w;
  info = λ text x w. ok x ∷ w;
  error = λ text e w. err e ∷ w;
  standard_id = λ n. if ltb n 0x800 then some n else none;
}

-- An ECU that answers everything with the same message.
abbrev answer : List ℕ
answer = 0x62 ∷ 0xF1 ∷ 0x8A ∷ 1 ∷ 2 ∷ []

abbrev echo : IsoTpSocket Log
echo = record {
  write_packet = λ payload w. ready (ok tt) w;
  read_packet = λ w. ready (ok answer) w;
}

echo-IsLive : IsLive echo
echo-IsLive = record { writes = λ payload w h. cc; reads = λ w h. cc }

abbrev echo_client : UdsClient Log
echo_client = record { socket = record { isotp_socket = echo } }

echo-Opens :
    Opens impatient (interface (ok echo)) logging (vw (interface (ok echo))) [] (ok echo_client) []
unfolding vw new new_socket is_default
echo-Opens = opened refl refl refl refl

main_progress_example :
    (z : Log) × Calls impatient (interface (ok echo)) logging echo_client [] z
    × (main impatient (interface (ok echo)) logging [] ≡ done (ok tt) z)
main_progress_example =
    main_progress impatient (interface (ok echo)) logging [] echo_client [] echo-Opens echo-IsLive

-- No CAN interface has the name.
abbrev no_device : UdsError
no_device = UdsError.communication_error UdsCommunicationError.failed_to_find_can_device

run_nowhere : main impatient (interface (err Error.lookup)) logging [] ≡ done (err no_device) []
unfolding main vw new new_socket is_default
run_nowhere = refl

-- The log of a run: a record of data, and three answers of another service.
abbrev echo_log : Log
echo_log =
    err (UdsError.sid_mismatch 0x51 0x62 answer)
    ∷ err (UdsError.sid_mismatch 0x54 0x62 answer)
    ∷ err (UdsError.sid_mismatch 0x59 0x62 answer)
    ∷ ok (
        UdsResponse.read_data_by_identifier (
          parsed (record {
            data_records = record { data_identifier = 0xF18A; bytes = 1 ∷ 2 ∷ [] } ∷ [];
          })))
    ∷ []

run_echo : main impatient (interface (ok echo)) logging [] ≡ done (ok tt) echo_log
unfolding main vw new new_socket is_default run_calls read_data_by_identifier
    read_single_data_by_identifier read_data_by_identifier_tuple
    compose_read_data_by_identifier_request push_identifiers
    parse_read_data_by_identifier_tuple_response parse_records next_record push_exactly push_all
    send_and_receive transmit retry_loop on_response on_nrc parse_for_error send receive
    report_dtc_by_status_mask parse_report_dtcs clear_diagnostic_information
    parse_clear_diagnostic_information_response ecu_reset parse_ecu_reset_response
run_echo = refl

programs-iff-Ran_example :
    (c : UdsClient Log) × (u : Log) × Opens impatient
      (interface (ok echo))
      logging
      (vw (interface (ok echo)))
      []
      (ok c)
      u
    × Calls impatient (interface (ok echo)) logging c u echo_log
programs-iff-Ran_example =
    (programs-iff-Ran impatient (interface (ok echo)) logging [] (ok tt) echo_log).0.0 run_echo
