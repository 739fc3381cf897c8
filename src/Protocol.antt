-- ===== src/Protocol.antt =====
-- src/protocol: the wire format and the messages that travel in it.
pub mod Frame
pub mod Handshake
pub mod Crypto
