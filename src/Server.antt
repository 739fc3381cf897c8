-- ===== src/Server.antt =====
-- The state that the handlers of the HTTP server share.
pub mod Pairing
