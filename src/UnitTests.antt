-- ===== src/UnitTests.antt =====
-- The unit tests of the repository: what each of them asserts, of the model with any derive of num_enum
-- that keeps its laws.
pub mod Client
pub mod ReadDataByIdentifier
pub mod ReadDtcInformation
pub mod ReadMemoryByAddress
