-- ===== src/ReadDtcInformation/Reports.antt =====
-- src/uds/read_dtc_information.rs: the two `match`es on the report type.
use uds_rs.Base.{Result, ok, err}
use uds_rs.Response.{
  UdsError, SubFunction, ReportNumberOfDtcByMaskResponse, ReportDtcsResponse,
  ReadDtcInformationResponse,
}

unfoldable pub number_report :
    SubFunction → ReportNumberOfDtcByMaskResponse → Result ReadDtcInformationResponse UdsError
number_report SubFunction.report_number_of_dtc_by_status_mask r =
    ok (ReadDtcInformationResponse.report_number_of_dtc_by_status_mask r)
number_report SubFunction.report_number_of_dtc_by_severity_mask_record r =
    ok (ReadDtcInformationResponse.report_number_of_dtc_by_severity_mask_record r)
number_report SubFunction.report_number_of_mirror_memory_dtc_by_status_mask r =
    ok (ReadDtcInformationResponse.report_number_of_mirror_memory_dtc_by_status_mask r)
number_report SubFunction.report_number_of_emissions_obd_dtc_by_status_mask r =
    ok (ReadDtcInformationResponse.report_number_of_emissions_obd_dtc_by_status_mask r)
number_report _ r = err UdsError.invalid_argument

unfoldable pub dtcs_report :
    SubFunction → ReportDtcsResponse → Result ReadDtcInformationResponse UdsError
dtcs_report SubFunction.report_dtc_by_status_mask r =
    ok (ReadDtcInformationResponse.report_dtc_by_status_mask r)
dtcs_report SubFunction.report_supported_dtc r =
    ok (ReadDtcInformationResponse.report_supported_dtc r)
dtcs_report SubFunction.report_first_test_failed_dtc r =
    ok (ReadDtcInformationResponse.report_first_test_failed_dtc r)
dtcs_report SubFunction.report_first_confirmed_dtc r =
    ok (ReadDtcInformationResponse.report_first_confirmed_dtc r)
dtcs_report SubFunction.report_most_recent_test_failed_dtc r =
    ok (ReadDtcInformationResponse.report_most_recent_test_failed_dtc r)
dtcs_report SubFunction.report_most_recent_confirmed_dtc r =
    ok (ReadDtcInformationResponse.report_most_recent_confirmed_dtc r)
dtcs_report SubFunction.report_mirror_memory_dtc_by_status_mask r =
    ok (ReadDtcInformationResponse.report_mirror_memory_dtc_by_status_mask r)
dtcs_report SubFunction.report_emissions_obd_dtc_by_status_mask r =
    ok (ReadDtcInformationResponse.report_emissions_obd_dtc_by_status_mask r)
dtcs_report SubFunction.report_dtc_with_permanent_status r =
    ok (ReadDtcInformationResponse.report_dtc_with_permanent_status r)
dtcs_report _ r = err UdsError.invalid_argument
