-- ===== src/Server.antt =====
-- The client with servers that behave as the standard says, told by what they store. A server's
-- interface is a record of its answers: which message serves which request in which world.
pub mod Identifiers
pub mod Memory
pub mod Dtcs
