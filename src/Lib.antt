-- ===== src/Lib.antt =====
-- Verification library of uds-rs, a client for the diagnostic protocol UDS (ISO 14229-1).
--
-- The program and its parts. A caller opens a `UdsClient` on an ISO-TP socket and calls one method
-- for each service. A method composes a request, hands it to `send_and_receive`, and parses the
-- response into a struct. `send_and_receive` repeats the request while the ECU is busy, waits once
-- for a delayed response, and turns refusals into errors.
--
-- Which file models which part, by paths from the repository's root:
--   * src/uds/communication.rs: Communication (errors, `send`, `receive`) and Communication/Options
--     (`UdsSocketOptions`, `UdsSocket::new`).
--   * src/uds/uds_definitions.rs: Definitions; Definitions/Sids holds its proofs.
--   * src/uds.rs: Response holds the types of results and errors (`UdsResponse`, `UdsError`), and the
--     pieces that all parse functions share (`next_or`, `check_sid`, `or_incorrect`); its children
--     Response/Services and Response/Dtc hold the structs that the services' files declare. Client
--     holds `UdsClient`, `parse_for_error` and `send_and_receive`; Client/Outcome says how a call
--     ends, Client/New holds `UdsClient::new`. Client/Conclusion describes all ends of
--     the exchange without the client's loop, and its children compare the code with it.
--     Client/Exchange, Client/Retry, Client/Sound, Client/Origin, Client/Keeps, Client/Progress,
--     Client/Ends, Client/RejectedSid, Client/Methods and Client/Refusals hold other proofs of the
--     exchange.
--   * src/uds/ecu_reset.rs: EcuReset. src/uds/clear_diagnostic_information.rs:
--     ClearDiagnosticInformation. src/uds/write_data_by_identifier.rs: WriteDataByIdentifier.
--     src/uds/diagnostic_session_control.rs: DiagnosticSessionControl.
--     src/uds/read_memory_by_address.rs: ReadMemoryByAddress. src/uds/read_data_by_identifier.rs:
--     ReadDataByIdentifier. src/uds/read_dtc_information.rs: ReadDtcInformation, whose two long
--     matches are in ReadDtcInformation/Reports. Their children named Format, Counts, Records,
--     Request, RoundTrip and the like describe the messages and hold proofs.
--   * examples/basic_functionality.rs, and the two programs in the documentation in src/lib.rs:
--     BasicFunctionality; its children Steps and Outcome hold proofs.
--   * The unit tests of src/uds.rs and of src/uds/: UnitTests, as statements that are proved.
--   * Services holds what concerns the methods of several services: what they return (Services),
--     what becomes of a delayed refusal (Services/Endings), how they fail (Services/Failures,
--     Services/Errors, Services/Blame), what they send (Services/Requests). Session holds sequences
--     of calls, as a step relation on worlds. Server describes servers by what they store, as
--     records of their answers, for calls of the client with them. Base holds the shared helpers.
--     Examples holds runs at concrete messages, concrete servers, and runs of the example program.
--
-- How the code is modelled. The functions keep the names of the code, and its order of tests and
-- early returns. `?` is a bind of `Result`; a byte iterator is the list of the bytes that it has
-- left. A method takes the state `W` of the world (bus, ECU, clock) and gives a `Call`: `done` with
-- the result and the new world, `panicked`, or `never` for an await that does not complete. The field
-- `data` of `DataRecord` is called `bytes` here.
--
-- Panics. The index `raw_response[0]` and the slices of read_memory_by_address.rs are modelled with
-- their panics. The slice `raw_response[1..]` of read_data_by_identifier.rs (line 91) and
-- read_dtc_information.rs (lines 513 and 549) is modelled as what follows the SID, without one: in
-- each of the three functions `response.next()` has refused an empty message before. A change that
-- moved such a slice in front of that test would be seen here as another result, and not as a
-- panic.
--
-- Numbers. u8, u16, u32 and u64 values are natural numbers; casts, shifts and sums that can leave
-- their width are written with their remainder, as in a build without overflow checks. The only such
-- effect that a caller can see is that of the retry counter. A theorem that needs its input to be
-- bytes, a u16 or a u64 says so.
--
-- Bounds and fuel. The retry loop takes the fuel `rounds` = 2 ^ 32. The counter, an i32 that starts
-- at 0 and is decremented before it is compared with 0, takes each of its 2 ^ 32 values at most once,
-- so the loop ends before its fuel does. All other loops are structural recursion on the message, the
-- requests or a length, or well-founded recursion on the shifted number.
--
-- What is a parameter. The crate tokio_socketcan_isotp: an open socket is the record `IsoTpSocket`,
-- opening one is the record `IsoTp`, whose sets of flags come with the laws of `set`. The function
-- `tokio::time::timeout`: the record `Tokio`, with the law that what it gives in time is what the
-- future gives. The derives of num_enum: the record `TryFromPrimitive` with its laws; NumEnum/Table
-- shows that a search in a table has them. For the example program, what log and env_logger do to
-- the world, and which numbers embedded_can takes for identifiers: the record `Host`.
--
-- What is not modelled: the log messages of the crate itself, the texts of errors, and the
-- subfunctions of ReadDTCInformation that are commented out.
pub mod Base
pub mod NumEnum
pub mod Definitions
pub mod Communication
pub mod Response
pub mod Client
pub mod EcuReset
pub mod ClearDiagnosticInformation
pub mod WriteDataByIdentifier
pub mod DiagnosticSessionControl
pub mod ReadMemoryByAddress
pub mod ReadDataByIdentifier
pub mod ReadDtcInformation
pub mod Services
pub mod BasicFunctionality
pub mod UnitTests
pub mod Session
pub mod Server
pub mod Examples
