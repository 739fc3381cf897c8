-- ===== src/Upload/Delivery.antt =====
-- The sender's workers (src/cli.rs, src/gui/engine.rs) and the receiver's handler
-- (src/server/api.rs) together.
pub mod Requests
pub mod Files
pub mod Writes
pub mod Chunks
pub mod Workers
pub mod Interleavings
pub mod Whole
