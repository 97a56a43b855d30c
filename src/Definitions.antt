-- ===== src/Definitions.antt =====
-- src/uds/uds_definitions.rs: the SID constants and the two enums with their discriminants (`as u8`).
pub mod Sids
use uds_rs.Base.{ℕ, ◌+◌, ◌-◌, ◌%◌, ◌^◌, add_wrapping}

abbrev pub send_receive_sid_offset : ℕ
send_receive_sid_offset = 0x40

abbrev pub negative_response_sid : ℕ
negative_response_sid = 0x7F

-- u8 arithmetic as in a release build: it wraps.
unfoldable pub to_received_sid : ℕ → ℕ
to_received_sid sid = add_wrapping 8 sid send_receive_sid_offset

unfoldable pub from_received_sid : ℕ → ℕ
from_received_sid sid = (sid + 2 ^ 8 - send_receive_sid_offset) % 2 ^ 8

pub data ServiceIdentifier : Type 0 where
  diagnostic_session_control ecu_reset security_access communication_control : ServiceIdentifier
  authentication tester_present access_timing_parameters secured_data_transmission :
      ServiceIdentifier
  control_dtc_settings response_on_event link_control read_data_by_identifier : ServiceIdentifier
  read_memory_by_address read_scaling_data_by_identifier read_data_by_periodic_identifier :
      ServiceIdentifier
  dynamically_define_data_identifier write_data_by_identifier write_memory_by_address :
      ServiceIdentifier
  clear_diagnostic_information read_dtc_information input_output_control_by_identifier :
      ServiceIdentifier
  routine_control request_download request_upload transfer_data request_transfer_exit :
      ServiceIdentifier
  request_file_transfer negative_response : ServiceIdentifier

abbrev pub service_identifier_as_u8 : ServiceIdentifier → ℕ
service_identifier_as_u8 ServiceIdentifier.diagnostic_session_control = 0x10
service_identifier_as_u8 ServiceIdentifier.ecu_reset = 0x11
service_identifier_as_u8 ServiceIdentifier.security_access = 0x27
service_identifier_as_u8 ServiceIdentifier.communication_control = 0x28
service_identifier_as_u8 ServiceIdentifier.authentication = 0x29
service_identifier_as_u8 ServiceIdentifier.tester_present = 0x3E
service_identifier_as_u8 ServiceIdentifier.access_timing_parameters = 0x83
service_identifier_as_u8 ServiceIdentifier.secured_data_transmission = 0x84
service_identifier_as_u8 ServiceIdentifier.control_dtc_settings = 0x85
service_identifier_as_u8 ServiceIdentifier.response_on_event = 0x86
service_identifier_as_u8 ServiceIdentifier.link_control = 0x87
service_identifier_as_u8 ServiceIdentifier.read_data_by_identifier = 0x22
service_identifier_as_u8 ServiceIdentifier.read_memory_by_address = 0x23
service_identifier_as_u8 ServiceIdentifier.read_scaling_data_by_identifier = 0x24
service_identifier_as_u8 ServiceIdentifier.read_data_by_periodic_identifier = 0x2A
service_identifier_as_u8 ServiceIdentifier.dynamically_define_data_identifier = 0x2C
service_identifier_as_u8 ServiceIdentifier.write_data_by_identifier = 0x2E
service_identifier_as_u8 ServiceIdentifier.write_memory_by_address = 0x3D
service_identifier_as_u8 ServiceIdentifier.clear_diagnostic_information = 0x14
service_identifier_as_u8 ServiceIdentifier.read_dtc_information = 0x19
service_identifier_as_u8 ServiceIdentifier.input_output_control_by_identifier = 0x2F
service_identifier_as_u8 ServiceIdentifier.routine_control = 0x31
service_identifier_as_u8 ServiceIdentifier.request_download = 0x34
service_identifier_as_u8 ServiceIdentifier.request_upload = 0x35
service_identifier_as_u8 ServiceIdentifier.transfer_data = 0x36
service_identifier_as_u8 ServiceIdentifier.request_transfer_exit = 0x37
service_identifier_as_u8 ServiceIdentifier.request_file_transfer = 0x38
service_identifier_as_u8 ServiceIdentifier.negative_response = 0x7F

pub data NegativeResponseCode : Type 0 where
  positive_response general_reject service_not_supported sub_function_not_supported :
      NegativeResponseCode
  incorrect_message_length_or_invalid_format response_too_long busy_repeat_request :
      NegativeResponseCode
  conditions_not_correct request_sequence_error no_response_from_subnet_component :
      NegativeResponseCode
  failure_prevents_execution_of_requested_action request_out_of_range : NegativeResponseCode
  security_access_denied invalid_key exceeded_number_of_attempts : NegativeResponseCode
  required_time_delay_not_expired upload_download_not_accepted transfer_data_suspended :
      NegativeResponseCode
  general_programming_failure wrong_block_sequence_counter : NegativeResponseCode
  request_correctly_received_response_pending subfunction_not_supported_in_active_session :
      NegativeResponseCode
  service_not_supported_in_active_session rpm_too_high rpm_too_low engine_is_running :
      NegativeResponseCode
  engine_is_not_running engine_run_time_too_low temperature_too_high temperature_too_low :
      NegativeResponseCode
  vehicle_speed_too_high vehicle_speed_too_low throttle_pedal_too_high : NegativeResponseCode
  throttle_pedal_too_low transmission_range_not_in_neutral transmission_range_not_in_gear :
      NegativeResponseCode
  brake_switch_not_closed shift_lever_not_in_park torque_converter_clutch_locked :
      NegativeResponseCode
  voltage_too_high voltage_too_low : NegativeResponseCode

abbrev pub negative_response_code_as_u8 : NegativeResponseCode → ℕ
negative_response_code_as_u8 NegativeResponseCode.positive_response = 0x00
negative_response_code_as_u8 NegativeResponseCode.general_reject = 0x10
negative_response_code_as_u8 NegativeResponseCode.service_not_supported = 0x11
negative_response_code_as_u8 NegativeResponseCode.sub_function_not_supported = 0x12
negative_response_code_as_u8 NegativeResponseCode.incorrect_message_length_or_invalid_format = 0x13
negative_response_code_as_u8 NegativeResponseCode.response_too_long = 0x14
negative_response_code_as_u8 NegativeResponseCode.busy_repeat_request = 0x21
negative_response_code_as_u8 NegativeResponseCode.conditions_not_correct = 0x22
negative_response_code_as_u8 NegativeResponseCode.request_sequence_error = 0x24
negative_response_code_as_u8 NegativeResponseCode.no_response_from_subnet_component = 0x25
negative_response_code_as_u8 NegativeResponseCode.failure_prevents_execution_of_requested_action =
    0x26
negative_response_code_as_u8 NegativeResponseCode.request_out_of_range = 0x31
negative_response_code_as_u8 NegativeResponseCode.security_access_denied = 0x33
negative_response_code_as_u8 NegativeResponseCode.invalid_key = 0x35
negative_response_code_as_u8 NegativeResponseCode.exceeded_number_of_attempts = 0x36
negative_response_code_as_u8 NegativeResponseCode.required_time_delay_not_expired = 0x37
negative_response_code_as_u8 NegativeResponseCode.upload_download_not_accepted = 0x70
negative_response_code_as_u8 NegativeResponseCode.transfer_data_suspended = 0x71
negative_response_code_as_u8 NegativeResponseCode.general_programming_failure = 0x72
negative_response_code_as_u8 NegativeResponseCode.wrong_block_sequence_counter = 0x73
negative_response_code_as_u8 NegativeResponseCode.request_correctly_received_response_pending = 0x78
negative_response_code_as_u8 NegativeResponseCode.subfunction_not_supported_in_active_session = 0x7E
negative_response_code_as_u8 NegativeResponseCode.service_not_supported_in_active_session = 0x7F
negative_response_code_as_u8 NegativeResponseCode.rpm_too_high = 0x81
negative_response_code_as_u8 NegativeResponseCode.rpm_too_low = 0x82
negative_response_code_as_u8 NegativeResponseCode.engine_is_running = 0x83
negative_response_code_as_u8 NegativeResponseCode.engine_is_not_running = 0x84
negative_response_code_as_u8 NegativeResponseCode.engine_run_time_too_low = 0x85
negative_response_code_as_u8 NegativeResponseCode.temperature_too_high = 0x86
negative_response_code_as_u8 NegativeResponseCode.temperature_too_low = 0x87
negative_response_code_as_u8 NegativeResponseCode.vehicle_speed_too_high = 0x88
negative_response_code_as_u8 NegativeResponseCode.vehicle_speed_too_low = 0x89
negative_response_code_as_u8 NegativeResponseCode.throttle_pedal_too_high = 0x8A
negative_response_code_as_u8 NegativeResponseCode.throttle_pedal_too_low = 0x8B
negative_response_code_as_u8 NegativeResponseCode.transmission_range_not_in_neutral = 0x8C
negative_response_code_as_u8 NegativeResponseCode.transmission_range_not_in_gear = 0x8D
negative_response_code_as_u8 NegativeResponseCode.brake_switch_not_closed = 0x8F
negative_response_code_as_u8 NegativeResponseCode.shift_lever_not_in_park = 0x90
negative_response_code_as_u8 NegativeResponseCode.torque_converter_clutch_locked = 0x91
negative_response_code_as_u8 NegativeResponseCode.voltage_too_high = 0x92
negative_response_code_as_u8 NegativeResponseCode.voltage_too_low = 0x93
