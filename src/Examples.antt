-- ===== src/Examples.antt =====
-- Concrete runs of the model, and the theorems at concrete inputs.
mod Tables
mod Ecu
mod Exchanges
mod Conclusions
mod Failures
mod Sessions
mod Interface
mod Calls
mod Memory
mod Messages
mod Servers
mod Program
