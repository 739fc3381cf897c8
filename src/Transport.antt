-- ===== src/Transport.antt =====
-- src/transport: what a transport measures, and the transport over a TCP connection.
pub mod Metrics
pub mod Lan
