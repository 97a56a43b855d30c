-- ===== src/Response/Services.antt =====
-- The response structs of the services other than ReadDTCInformation, and `ResetType`.
use uds_rs.Base.{ℕ, List, Option}

-- src/uds/ecu_reset.rs
pub data ResetType : Type 0 where
  hard_reset key_off_on_reset soft_reset : ResetType
  enable_rapid_power_shut_down disable_rapid_power_shut_down : ResetType

abbrev pub reset_type_as_u8 : ResetType → ℕ
reset_type_as_u8 ResetType.hard_reset = 1
reset_type_as_u8 ResetType.key_off_on_reset = 2
reset_type_as_u8 ResetType.soft_reset = 3
reset_type_as_u8 ResetType.enable_rapid_power_shut_down = 4
reset_type_as_u8 ResetType.disable_rapid_power_shut_down = 5

pub record EcuResetResponse : Type 0 where
  pub reset_type : ResetType
  pub power_down_time : Option ℕ

-- src/uds/read_data_by_identifier.rs
pub record DataRecord : Type 0 where
  pub data_identifier : ℕ
  pub bytes : List ℕ

pub record ReadDataByIdentifierResponse : Type 0 where
  pub data_records : List DataRecord

-- src/uds/read_memory_by_address.rs
pub record ReadMemoryByAddressResponse : Type 0 where
  pub data_record : List ℕ

-- src/uds/write_data_by_identifier.rs
pub record WriteDataByIdentifierResponse : Type 0 where
  pub data_identifier : ℕ

-- src/uds/diagnostic_session_control.rs
pub record DiagnosticSessionControlResponse : Type 0 where
  pub session : ℕ
  pub p2 : ℕ
  pub p2_star : ℕ
