-- ===== src/Discovery.antt =====
-- Finding other devices, and pairing with one by a PIN.
pub mod Versions
pub mod Sessions
pub mod Peers
