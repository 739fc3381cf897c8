-- ===== src/Storage/ManifestDb.antt =====
-- src/storage/manifest_db.rs: the record of transfers and their chunks. A table is the list of its
-- rows; SQLite runs the statements one after the other in a transaction, and a transaction that
-- ends with an error changes nothing. The time and the text of a UUID are arguments.
pub mod Names
pub mod Progress
pub mod Marking
pub mod Listing
use share_dash.Common.{
  ◌^◌, ltb, sort_by, map, text_le, ℕ, suc, ◌+◌, ◌==◌, leb, if◌then◌else◌, Bool, true, false, not,
  ◌&&◌, ◌||◌, List, [], ◌∷◌, ◌++◌, Option, none, some, length, Text, text, text_eq, Result, ok, err,
}
use share_dash.Storage.Manifest.{ChunkInfo, FileMetadata, TransferManifest}
use share_dash.Storage.Statuses.{
  TransferStatus, status_from_str, ChunkState, active, state_as_str, status_as_str,
}
use share_dash.Storage.Tables.{
  ChunkRow, FileRow, TransferRow, complete_rows, count_completed, find_transfer, has_transfer,
  put_chunks, put_files, set_completed, set_status, without_chunks_of, without_files_of,
  without_transfer,
}

-- `foreign_keys` is set by `open` and not by `open_in_memory`: with it, a row of `transfers` that
-- is deleted takes the rows of its files and chunks along.
pub record ManifestDb : Type 0 where
  pub foreign_keys : Bool
  pub transfers : List TransferRow
  pub transfer_files : List FileRow
  pub transfer_chunks : List ChunkRow

-- The tables of a new database.
abbrev pub empty_db : Bool → ManifestDb
empty_db foreign_keys = record {
  foreign_keys = foreign_keys;
  transfers = [];
  transfer_files = [];
  transfer_chunks = [];
}

unfoldable pub put_transfer : TransferRow → ManifestDb → ManifestDb
put_transfer r db =
    let cascades = db.foreign_keys && has_transfer r.transfer_id db.transfers in
    record db {
      transfers = without_transfer r.transfer_id db.transfers ++ (r ∷ []);
      transfer_files =
          if cascades then without_files_of r.transfer_id db.transfer_files else db.transfer_files;
      transfer_chunks =
          if cascades
          then without_chunks_of r.transfer_id db.transfer_chunks
          else db.transfer_chunks;
    }

abbrev pub initial_state : Bool → Text
initial_state is_outgoing =
    if is_outgoing then state_as_str ChunkState.completed else state_as_str ChunkState.pending

abbrev pub new_row : Text → TransferManifest → Bool → Text → Text → TransferRow
new_row tid m is_outgoing destination_path now = record {
  transfer_id = tid;
  title = m.title;
  is_outgoing = is_outgoing;
  total_bytes = m.total_bytes;
  total_files = m.total_files;
  total_chunks = m.total_chunks;
  chunk_size = m.chunk_size;
  completed_chunks = 0;
  root_hash = m.root_hash;
  destination_path = destination_path;
  status = status_as_str active;
  created_at = now;
  updated_at = now;
}

pub data DbError : Type 0 where
  no_rows too_large : DbError

-- SQLite has signed numbers of 64 bits: other u64 are refused, and the transaction fails.
abbrev pub fits_i64 : ℕ → Bool
fits_i64 n = ltb n (2 ^ 63)

unfoldable pub files_fit : List FileMetadata → Bool
files_fit [] = true
files_fit (f ∷ fs) = fits_i64 f.size_bytes && files_fit fs

unfoldable pub chunks_fit : List ChunkInfo → Bool
chunks_fit [] = true
chunks_fit (c ∷ cs) = fits_i64 c.offset && chunks_fit cs

abbrev pub all_fit : TransferManifest → Bool
all_fit m = fits_i64 m.total_bytes && (files_fit m.files && chunks_fit m.chunks)

-- The rows of a transfer, in the three tables.
unfoldable pub insert_transfer :
    (List ℕ → Text) → ManifestDb → TransferManifest → Bool → Text → Text → ManifestDb
unfolding put_transfer put_files put_chunks
insert_transfer uuid_text db m is_outgoing destination_path now =
    let tid = uuid_text m.transfer_id in
    let saved = put_transfer (new_row tid m is_outgoing destination_path now) db in
    record saved {
      transfer_files = put_files tid m.files saved.transfer_files;
      transfer_chunks = put_chunks tid (initial_state is_outgoing) m.chunks saved.transfer_chunks;
    }

unfoldable pub save_transfer :
    (List ℕ → Text)
    → ManifestDb
    → TransferManifest
    → Bool
    → Text
    → Text
    → ManifestDb × Result DbError (Unit {0})
save_transfer uuid_text db m is_outgoing destination_path now =
    if all_fit m
    then (insert_transfer uuid_text db m is_outgoing destination_path now, ok tt)
    else (db, err too_large)

-- The state after the call, and what it returns.
unfoldable pub commit :
    Text → Text → ManifestDb → ManifestDb → Option TransferRow → ManifestDb × Result DbError ℕ
commit tid now before db none = (before, err no_rows)
commit tid now before db (some r) =
    if leb r.total_chunks r.completed_chunks
    then (
      record db { transfers = set_status tid (text "COMPLETED") now db.transfers },
      ok r.completed_chunks,
    )
    else (db, ok r.completed_chunks)

unfoldable pub mark_chunk_completed :
    ManifestDb → Text → ℕ → Text → Text → ManifestDb × Result DbError ℕ
unfolding commit
mark_chunk_completed db tid id transport now =
    let rows = complete_rows tid id transport now db.transfer_chunks in
    let transfers = set_completed tid (count_completed tid rows) now db.transfers in
    commit tid now db (record db { transfer_chunks = rows; transfers = transfers })
      (find_transfer tid transfers)

pub record TransferRecord : Type 0 where
  pub transfer_id : List ℕ
  pub title : Text
  pub is_outgoing : Bool
  pub total_bytes : ℕ
  pub total_files : ℕ
  pub chunk_size : ℕ
  pub total_chunks : ℕ
  pub completed_chunks : ℕ
  pub root_hash : Text
  pub destination_path : Text
  pub status : TransferStatus
  pub created_at : Text
  pub updated_at : Text

-- The UUID of sixteen zeros, where the text is not one.
abbrev pub or_nil : Option (List ℕ) → List ℕ
or_nil none = 0 ∷ 0 ∷ 0 ∷ 0 ∷ 0 ∷ 0 ∷ 0 ∷ 0 ∷ 0 ∷ 0 ∷ 0 ∷ 0 ∷ 0 ∷ 0 ∷ 0 ∷ 0 ∷ []
or_nil (some id) = id

abbrev pub record_of : (Text → Option (List ℕ)) → TransferRow → TransferRecord
record_of parse r = record {
  transfer_id = or_nil (parse r.transfer_id);
  title = r.title;
  is_outgoing = r.is_outgoing;
  total_bytes = r.total_bytes;
  total_files = r.total_files;
  chunk_size = r.chunk_size;
  total_chunks = r.total_chunks;
  completed_chunks = r.completed_chunks;
  root_hash = r.root_hash;
  destination_path = r.destination_path;
  status = status_from_str r.status;
  created_at = r.created_at;
  updated_at = r.updated_at;
}

-- `ORDER BY created_at DESC`; SQL says nothing of rows of the same time.
abbrev pub is_newer : TransferRecord → TransferRecord → Bool
is_newer r x = text_le x.created_at r.created_at

-- The reader of UUIDs is a parameter.
abbrev pub list_transfers : (Text → Option (List ℕ)) → ManifestDb → List TransferRecord
list_transfers parse db = sort_by is_newer (map (record_of parse) db.transfers)
