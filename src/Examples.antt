-- ===== src/Examples.antt =====
-- Runs of the definitions at small inputs, and the theorems applied to them.
pub mod Pools
pub mod Frames
pub mod Handshakes
pub mod Links
pub mod Transfers
pub mod Databases
pub mod Workers
pub mod Uploads
pub mod Requests
pub mod Devices
