-- ===== src/Security.antt =====
-- src/core/security.cpp and src/security: seed and key algorithms, access control, the XOR channel.
pub mod Algorithms
pub mod Manager
pub mod SecureComm
pub mod Access
mod Runs
