-- ===== src/Response/Dtc.antt =====
-- The types of src/uds/read_dtc_information.rs.
use uds_rs.Base.{ℕ, List}

pub data SubFunction : Type 0 where
  report_number_of_dtc_by_status_mask report_dtc_by_status_mask : SubFunction
  report_dtc_snapshot_identification report_dtc_snapshot_record_by_dtc_number : SubFunction
  report_dtc_stored_data_by_record_number report_dtc_ext_data_record_by_dtc_number : SubFunction
  report_number_of_dtc_by_severity_mask_record report_dtc_by_severity_mask_record : SubFunction
  report_severity_information_of_dtc report_supported_dtc report_first_test_failed_dtc : SubFunction
  report_first_confirmed_dtc report_most_recent_test_failed_dtc : SubFunction
  report_most_recent_confirmed_dtc report_mirror_memory_dtc_by_status_mask : SubFunction
  report_mirror_memory_dtc_ext_data_record_by_dtc_number : SubFunction
  report_number_of_mirror_memory_dtc_by_status_mask : SubFunction
  report_number_of_emissions_obd_dtc_by_status_mask : SubFunction
  report_emissions_obd_dtc_by_status_mask report_dtc_fault_detection_counter : SubFunction
  report_dtc_with_permanent_status report_dtc_ext_data_record_by_record_number : SubFunction
  report_user_def_memory_dtc_by_status_mask : SubFunction
  report_user_def_memory_dtc_snapshot_record_by_dtc_number : SubFunction
  report_user_def_memory_dtc_ext_data_record_by_dtc_number : SubFunction
  report_wwh_obd_dtc_by_mask_record report_wwh_obd_dtc_with_permanent_status : SubFunction

abbrev pub sub_function_as_u8 : SubFunction → ℕ
sub_function_as_u8 SubFunction.report_number_of_dtc_by_status_mask = 0x01
sub_function_as_u8 SubFunction.report_dtc_by_status_mask = 0x02
sub_function_as_u8 SubFunction.report_dtc_snapshot_identification = 0x03
sub_function_as_u8 SubFunction.report_dtc_snapshot_record_by_dtc_number = 0x04
sub_function_as_u8 SubFunction.report_dtc_stored_data_by_record_number = 0x05
sub_function_as_u8 SubFunction.report_dtc_ext_data_record_by_dtc_number = 0x06
sub_function_as_u8 SubFunction.report_number_of_dtc_by_severity_mask_record = 0x07
sub_function_as_u8 SubFunction.report_dtc_by_severity_mask_record = 0x08
sub_function_as_u8 SubFunction.report_severity_information_of_dtc = 0x09
sub_function_as_u8 SubFunction.report_supported_dtc = 0x0A
sub_function_as_u8 SubFunction.report_first_test_failed_dtc = 0x0B
sub_function_as_u8 SubFunction.report_first_confirmed_dtc = 0x0C
sub_function_as_u8 SubFunction.report_most_recent_test_failed_dtc = 0x0D
sub_function_as_u8 SubFunction.report_most_recent_confirmed_dtc = 0x0E
sub_function_as_u8 SubFunction.report_mirror_memory_dtc_by_status_mask = 0x0F
sub_function_as_u8 SubFunction.report_mirror_memory_dtc_ext_data_record_by_dtc_number = 0x10
sub_function_as_u8 SubFunction.report_number_of_mirror_memory_dtc_by_status_mask = 0x11
sub_function_as_u8 SubFunction.report_number_of_emissions_obd_dtc_by_status_mask = 0x12
sub_function_as_u8 SubFunction.report_emissions_obd_dtc_by_status_mask = 0x13
sub_function_as_u8 SubFunction.report_dtc_fault_detection_counter = 0x14
sub_function_as_u8 SubFunction.report_dtc_with_permanent_status = 0x15
sub_function_as_u8 SubFunction.report_dtc_ext_data_record_by_record_number = 0x16
sub_function_as_u8 SubFunction.report_user_def_memory_dtc_by_status_mask = 0x17
sub_function_as_u8 SubFunction.report_user_def_memory_dtc_snapshot_record_by_dtc_number = 0x18
sub_function_as_u8 SubFunction.report_user_def_memory_dtc_ext_data_record_by_dtc_number = 0x19
sub_function_as_u8 SubFunction.report_wwh_obd_dtc_by_mask_record = 0x42
sub_function_as_u8 SubFunction.report_wwh_obd_dtc_with_permanent_status = 0x55

pub data DtcFormat : Type 0 where
  sae_j2012_da_0 iso_14229_1 sae_j1939_73 iso_11992_4 sae_j2012_da_4 : DtcFormat

abbrev pub dtc_format_as_u8 : DtcFormat → ℕ
dtc_format_as_u8 DtcFormat.sae_j2012_da_0 = 0x00
dtc_format_as_u8 DtcFormat.iso_14229_1 = 0x01
dtc_format_as_u8 DtcFormat.sae_j1939_73 = 0x02
dtc_format_as_u8 DtcFormat.iso_11992_4 = 0x03
dtc_format_as_u8 DtcFormat.sae_j2012_da_4 = 0x04

pub record ReportNumberOfDtcByMaskResponse : Type 0 where
  pub dtc_status_availability_mask : ℕ
  pub dtc_format_identifier : DtcFormat
  pub dtc_count : ℕ

pub record DtcAndStatusRecord : Type 0 where
  pub dtc : ℕ
  pub status_of_dtc : ℕ

pub record ReportDtcsResponse : Type 0 where
  pub dtc_status_availability_mask : ℕ
  pub dtc_and_status_records : List DtcAndStatusRecord

pub record SnapshotData : Type 0 where
  pub data_identifier : ℕ
  pub snapshot_data : List ℕ

pub record SnapshotRecord : Type 0 where
  pub dtc_snapshot_record_number : ℕ
  pub dtc_snapshot_record_number_of_identifiers : ℕ
  pub dtc_snapshot_record : List SnapshotData

pub record ReportDtcSnapshotRecordByDtcNumber : Type 0 where
  pub dtc_and_status_record : DtcAndStatusRecord
  pub snapshot_records : List SnapshotRecord

pub data ReadDtcInformationResponse : Type 0 where
  report_number_of_dtc_by_status_mask : ReportNumberOfDtcByMaskResponse → ReadDtcInformationResponse
  report_dtc_by_status_mask : ReportDtcsResponse → ReadDtcInformationResponse
  report_dtc_snapshot_identification : ReadDtcInformationResponse
  report_dtc_snapshot_record_by_dtc_number :
      ReportDtcSnapshotRecordByDtcNumber → ReadDtcInformationResponse
  report_dtc_stored_data_by_record_number : ReadDtcInformationResponse
  report_dtc_ext_data_record_by_dtc_number : ReadDtcInformationResponse
  report_number_of_dtc_by_severity_mask_record :
      ReportNumberOfDtcByMaskResponse → ReadDtcInformationResponse
  report_dtc_by_severity_mask_record : ReadDtcInformationResponse
  report_severity_information_of_dtc : ReadDtcInformationResponse
  report_supported_dtc : ReportDtcsResponse → ReadDtcInformationResponse
  report_first_test_failed_dtc : ReportDtcsResponse → ReadDtcInformationResponse
  report_first_confirmed_dtc : ReportDtcsResponse → ReadDtcInformationResponse
  report_most_recent_test_failed_dtc : ReportDtcsResponse → ReadDtcInformationResponse
  report_most_recent_confirmed_dtc : ReportDtcsResponse → ReadDtcInformationResponse
  report_mirror_memory_dtc_by_status_mask : ReportDtcsResponse → ReadDtcInformationResponse
  report_mirror_memory_dtc_ext_data_record_by_dtc_number : ReadDtcInformationResponse
  report_number_of_mirror_memory_dtc_by_status_mask :
      ReportNumberOfDtcByMaskResponse → ReadDtcInformationResponse
  report_number_of_emissions_obd_dtc_by_status_mask :
      ReportNumberOfDtcByMaskResponse → ReadDtcInformationResponse
  report_emissions_obd_dtc_by_status_mask : ReportDtcsResponse → ReadDtcInformationResponse
  report_dtc_fault_detection_counter : ReadDtcInformationResponse
  report_dtc_with_permanent_status : ReportDtcsResponse → ReadDtcInformationResponse
  report_dtc_ext_data_record_by_record_number : ReadDtcInformationResponse
  report_user_def_memory_dtc_by_status_mask : ReadDtcInformationResponse
  report_user_def_memory_dtc_snapshot_record_by_dtc_number : ReadDtcInformationResponse
  report_user_def_memory_dtc_ext_data_record_by_dtc_number : ReadDtcInformationResponse
  report_wwh_obd_dtc_by_mask_record : ReadDtcInformationResponse
  report_wwh_obd_dtc_with_permanent_status : ReadDtcInformationResponse
