-- ===== src/Protocol.antt =====
-- src/protocols: the message formats beside the transport. A byte string is a list of numbers.
pub mod Checksum
pub mod Obd2
pub mod Pids
pub mod Kwp2000
pub mod Uds
pub mod Gmlan
mod Runs
