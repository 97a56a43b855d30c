-- ===== src/Examples/Tables.antt =====
-- Lawful derives for the four enums that the code converts from u8, for the examples.
use uds_rs.Base.{◌≡◌, refl, List, [], ◌∷◌}
use uds_rs.NumEnum.{variant, TryFromPrimitive}
use uds_rs.NumEnum.Table.{find, from_table}
use uds_rs.Definitions.{NegativeResponseCode, negative_response_code_as_u8}
use uds_rs.Response.{
  ResetType, reset_type_as_u8, SubFunction, sub_function_as_u8, DtcFormat, dtc_format_as_u8,
}

abbrev negative_response_codes : List NegativeResponseCode
negative_response_codes =
    NegativeResponseCode.positive_response ∷ NegativeResponseCode.general_reject
    ∷ NegativeResponseCode.service_not_supported ∷ NegativeResponseCode.sub_function_not_supported
    ∷ NegativeResponseCode.incorrect_message_length_or_invalid_format
    ∷ NegativeResponseCode.response_too_long ∷ NegativeResponseCode.busy_repeat_request
    ∷ NegativeResponseCode.conditions_not_correct ∷ NegativeResponseCode.request_sequence_error
    ∷ NegativeResponseCode.no_response_from_subnet_component
    ∷ NegativeResponseCode.failure_prevents_execution_of_requested_action
    ∷ NegativeResponseCode.request_out_of_range ∷ NegativeResponseCode.security_access_denied
    ∷ NegativeResponseCode.invalid_key ∷ NegativeResponseCode.exceeded_number_of_attempts
    ∷ NegativeResponseCode.required_time_delay_not_expired
    ∷ NegativeResponseCode.upload_download_not_accepted
    ∷ NegativeResponseCode.transfer_data_suspended
    ∷ NegativeResponseCode.general_programming_failure
    ∷ NegativeResponseCode.wrong_block_sequence_counter
    ∷ NegativeResponseCode.request_correctly_received_response_pending
    ∷ NegativeResponseCode.subfunction_not_supported_in_active_session
    ∷ NegativeResponseCode.service_not_supported_in_active_session
    ∷ NegativeResponseCode.rpm_too_high ∷ NegativeResponseCode.rpm_too_low
    ∷ NegativeResponseCode.engine_is_running ∷ NegativeResponseCode.engine_is_not_running
    ∷ NegativeResponseCode.engine_run_time_too_low ∷ NegativeResponseCode.temperature_too_high
    ∷ NegativeResponseCode.temperature_too_low ∷ NegativeResponseCode.vehicle_speed_too_high
    ∷ NegativeResponseCode.vehicle_speed_too_low ∷ NegativeResponseCode.throttle_pedal_too_high
    ∷ NegativeResponseCode.throttle_pedal_too_low
    ∷ NegativeResponseCode.transmission_range_not_in_neutral
    ∷ NegativeResponseCode.transmission_range_not_in_gear
    ∷ NegativeResponseCode.brake_switch_not_closed ∷ NegativeResponseCode.shift_lever_not_in_park
    ∷ NegativeResponseCode.torque_converter_clutch_locked ∷ NegativeResponseCode.voltage_too_high
    ∷ NegativeResponseCode.voltage_too_low ∷ []

pub negative_response_codes_complete :
    (a : NegativeResponseCode)
    → find negative_response_code_as_u8 negative_response_codes (negative_response_code_as_u8 a)
      ≡ variant a
negative_response_codes_complete NegativeResponseCode.positive_response = refl
negative_response_codes_complete _ = refl

instance abbrev pub negative_response_codes_derive : TryFromPrimitive negative_response_code_as_u8
negative_response_codes_derive =
    from_table negative_response_code_as_u8 negative_response_codes negative_response_codes_complete

abbrev reset_types : List ResetType
reset_types =
    ResetType.hard_reset ∷ ResetType.key_off_on_reset ∷ ResetType.soft_reset
    ∷ ResetType.enable_rapid_power_shut_down ∷ ResetType.disable_rapid_power_shut_down ∷ []

pub reset_types_complete :
    (a : ResetType) → find reset_type_as_u8 reset_types (reset_type_as_u8 a) ≡ variant a
reset_types_complete ResetType.hard_reset = refl
reset_types_complete _ = refl

instance abbrev pub reset_types_derive : TryFromPrimitive reset_type_as_u8
reset_types_derive = from_table reset_type_as_u8 reset_types reset_types_complete

abbrev sub_functions : List SubFunction
sub_functions =
    SubFunction.report_number_of_dtc_by_status_mask ∷ SubFunction.report_dtc_by_status_mask
    ∷ SubFunction.report_dtc_snapshot_identification
    ∷ SubFunction.report_dtc_snapshot_record_by_dtc_number
    ∷ SubFunction.report_dtc_stored_data_by_record_number
    ∷ SubFunction.report_dtc_ext_data_record_by_dtc_number
    ∷ SubFunction.report_number_of_dtc_by_severity_mask_record
    ∷ SubFunction.report_dtc_by_severity_mask_record
    ∷ SubFunction.report_severity_information_of_dtc ∷ SubFunction.report_supported_dtc
    ∷ SubFunction.report_first_test_failed_dtc ∷ SubFunction.report_first_confirmed_dtc
    ∷ SubFunction.report_most_recent_test_failed_dtc ∷ SubFunction.report_most_recent_confirmed_dtc
    ∷ SubFunction.report_mirror_memory_dtc_by_status_mask
    ∷ SubFunction.report_mirror_memory_dtc_ext_data_record_by_dtc_number
    ∷ SubFunction.report_number_of_mirror_memory_dtc_by_status_mask
    ∷ SubFunction.report_number_of_emissions_obd_dtc_by_status_mask
    ∷ SubFunction.report_emissions_obd_dtc_by_status_mask
    ∷ SubFunction.report_dtc_fault_detection_counter ∷ SubFunction.report_dtc_with_permanent_status
    ∷ SubFunction.report_dtc_ext_data_record_by_record_number
    ∷ SubFunction.report_user_def_memory_dtc_by_status_mask
    ∷ SubFunction.report_user_def_memory_dtc_snapshot_record_by_dtc_number
    ∷ SubFunction.report_user_def_memory_dtc_ext_data_record_by_dtc_number
    ∷ SubFunction.report_wwh_obd_dtc_by_mask_record
    ∷ SubFunction.report_wwh_obd_dtc_with_permanent_status ∷ []

pub sub_functions_complete :
    (a : SubFunction) → find sub_function_as_u8 sub_functions (sub_function_as_u8 a) ≡ variant a
sub_functions_complete SubFunction.report_number_of_dtc_by_status_mask = refl
sub_functions_complete _ = refl

instance abbrev pub sub_functions_derive : TryFromPrimitive sub_function_as_u8
sub_functions_derive = from_table sub_function_as_u8 sub_functions sub_functions_complete

abbrev dtc_formats : List DtcFormat
dtc_formats =
    DtcFormat.sae_j2012_da_0 ∷ DtcFormat.iso_14229_1 ∷ DtcFormat.sae_j1939_73
    ∷ DtcFormat.iso_11992_4 ∷ DtcFormat.sae_j2012_da_4 ∷ []

pub dtc_formats_complete :
    (a : DtcFormat) → find dtc_format_as_u8 dtc_formats (dtc_format_as_u8 a) ≡ variant a
dtc_formats_complete DtcFormat.sae_j2012_da_0 = refl
dtc_formats_complete _ = refl

instance abbrev pub dtc_formats_derive : TryFromPrimitive dtc_format_as_u8
dtc_formats_derive = from_table dtc_format_as_u8 dtc_formats dtc_formats_complete
