-- ===== src/Storage.antt =====
-- src/storage: what a transfer is made of, how it is cut into chunks, and how it is stored.
pub mod Manifest
pub mod Chunker
pub mod Integrity
pub mod SparseWriter
pub mod Transfer
pub mod Statuses
pub mod Tables
pub mod ManifestDb
