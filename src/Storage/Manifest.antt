-- ===== src/Storage/Manifest.antt =====
-- The records of a transfer: src/storage/chunker.rs (`ChunkInfo`, `TransferManifest`) and
-- src/protocol/message.rs (`FileMetadata`). A UUID is the list of its sixteen bytes, and a time
-- stamp a number of seconds since 1970.
use share_dash.Common.{ℕ, Bool, List, Text}

pub record ChunkInfo : Type 0 where
  pub chunk_id : ℕ
  pub file_index : ℕ
  pub offset : ℕ
  pub length : ℕ
  pub sha256 : Text
  pub blake3 : Text

pub record FileMetadata : Type 0 where
  pub file_index : ℕ
  pub relative_path : Text
  pub size_bytes : ℕ
  pub modified_timestamp : ℕ
  pub is_executable : Bool
  pub chunk_start_index : ℕ
  pub chunk_count : ℕ
  pub sha256_hash : Text

pub record TransferManifest : Type 0 where
  pub transfer_id : List ℕ
  pub title : Text
  pub total_bytes : ℕ
  pub total_files : ℕ
  pub chunk_size : ℕ
  pub total_chunks : ℕ
  pub root_hash : Text
  pub files : List FileMetadata
  pub chunks : List ChunkInfo
