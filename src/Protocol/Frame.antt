-- ===== src/Protocol/Frame.antt =====
-- src/protocol/frame.rs: frame types, the 34-byte header, and the codec of a byte stream. A buffer
-- is the list of its bytes. An operation on a buffer returns what is left of it.
-- The checksum is that of the crate `crc32fast`: a function of the bytes that the hasher was fed.
pub mod Types
pub mod Header
pub mod Codec
