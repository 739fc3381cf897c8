-- ===== src/Storage/Tables.antt =====
-- The tables of src/storage/manifest_db.rs: a table is the list of its rows. The statements on one
-- table, in SQLite's words.
use share_dash.Common.{
  ℕ, ◌+◌, ◌==◌, leb, if◌then◌else◌, Bool, false, not, ◌&&◌, ◌||◌, List, [], ◌∷◌, ◌++◌, Option, none,
  some, Text, text, text_eq,
}
use share_dash.Storage.Manifest.{ChunkInfo, FileMetadata}

-- The tables `transfers`, `transfer_files` and `transfer_chunks`.
pub record TransferRow : Type 0 where
  pub transfer_id : Text
  pub title : Text
  pub is_outgoing : Bool
  pub total_bytes : ℕ
  pub total_files : ℕ
  pub total_chunks : ℕ
  pub chunk_size : ℕ
  pub completed_chunks : ℕ
  pub root_hash : Text
  pub destination_path : Text
  pub status : Text
  pub created_at : Text
  pub updated_at : Text

pub record FileRow : Type 0 where
  pub transfer_id : Text
  pub file : FileMetadata

pub record ChunkRow : Type 0 where
  pub transfer_id : Text
  pub chunk : ChunkInfo
  pub state : Text
  pub assigned_transport : Option Text
  pub completed_at : Option Text

-- `INSERT OR REPLACE`: the row with the same primary key goes, and the new one is added.
unfoldable pub without_transfer : Text → List TransferRow → List TransferRow
without_transfer tid [] = []
without_transfer tid (r ∷ rs) =
    let later = without_transfer tid rs in if text_eq r.transfer_id tid then later else r ∷ later

unfoldable pub without_file : Text → ℕ → List FileRow → List FileRow
without_file tid i [] = []
without_file tid i (r ∷ rs) =
    let later = without_file tid i rs in
    if text_eq r.transfer_id tid && r.file.file_index == i then later else r ∷ later

unfoldable pub without_chunk : Text → ℕ → List ChunkRow → List ChunkRow
without_chunk tid id [] = []
without_chunk tid id (r ∷ rs) =
    let later = without_chunk tid id rs in
    if text_eq r.transfer_id tid && r.chunk.chunk_id == id then later else r ∷ later

-- `ON DELETE CASCADE`.
unfoldable pub without_files_of : Text → List FileRow → List FileRow
without_files_of tid [] = []
without_files_of tid (r ∷ rs) =
    let later = without_files_of tid rs in if text_eq r.transfer_id tid then later else r ∷ later

unfoldable pub without_chunks_of : Text → List ChunkRow → List ChunkRow
without_chunks_of tid [] = []
without_chunks_of tid (r ∷ rs) =
    let later = without_chunks_of tid rs in if text_eq r.transfer_id tid then later else r ∷ later

unfoldable pub has_transfer : Text → List TransferRow → Bool
has_transfer tid [] = false
has_transfer tid (r ∷ rs) = text_eq r.transfer_id tid || has_transfer tid rs

unfoldable pub put_files : Text → List FileMetadata → List FileRow → List FileRow
put_files tid [] rows = rows
put_files tid (f ∷ fs) rows =
    put_files tid fs
      (without_file tid f.file_index rows ++ (record { transfer_id = tid; file = f } ∷ []))

abbrev pub new_chunk_row : Text → Text → ChunkInfo → ChunkRow
new_chunk_row tid state c = record {
  transfer_id = tid;
  chunk = c;
  state = state;
  assigned_transport = none;
  completed_at = none;
}

unfoldable pub put_chunks : Text → Text → List ChunkInfo → List ChunkRow → List ChunkRow
put_chunks tid state [] rows = rows
put_chunks tid state (c ∷ cs) rows =
    put_chunks tid state cs (without_chunk tid c.chunk_id rows ++ (new_chunk_row tid state c ∷ []))

-- `UPDATE transfer_chunks SET state = 'COMPLETED' … WHERE transfer_id = … AND chunk_id = …`.
unfoldable pub complete_rows : Text → ℕ → Text → Text → List ChunkRow → List ChunkRow
complete_rows tid id transport now [] = []
complete_rows tid id transport now (r ∷ rs) =
    (if text_eq r.transfer_id tid && r.chunk.chunk_id == id
      then record r {
        state = text "COMPLETED";
        assigned_transport = some transport;
        completed_at = some now;
      }
      else r)
    ∷ complete_rows tid id transport now rs

abbrev pub is_completed : Text → ChunkRow → Bool
is_completed tid r = text_eq r.transfer_id tid && text_eq r.state (text "COMPLETED")

-- `SELECT COUNT(*) … AND state = 'COMPLETED'`.
unfoldable pub count_completed : Text → List ChunkRow → ℕ
count_completed tid [] = 0
count_completed tid (r ∷ rs) = (if is_completed tid r then 1 else 0) + count_completed tid rs

unfoldable pub set_completed : Text → ℕ → Text → List TransferRow → List TransferRow
set_completed tid n now [] = []
set_completed tid n now (r ∷ rs) =
    (if text_eq r.transfer_id tid then record r { completed_chunks = n; updated_at = now } else r)
    ∷ set_completed tid n now rs

unfoldable pub set_status : Text → Text → Text → List TransferRow → List TransferRow
set_status tid status now [] = []
set_status tid status now (r ∷ rs) =
    (if text_eq r.transfer_id tid then record r { status = status; updated_at = now } else r)
    ∷ set_status tid status now rs

-- `query_row`: the row of a transfer.
unfoldable pub find_transfer : Text → List TransferRow → Option TransferRow
find_transfer tid [] = none
find_transfer tid (r ∷ rs) = if text_eq r.transfer_id tid then some r else find_transfer tid rs

-- `ORDER BY chunk_id ASC`.
unfoldable pub order_in : ℕ → List ℕ → List ℕ
order_in id [] = id ∷ []
order_in id (x ∷ xs) = if leb id x then id ∷ x ∷ xs else x ∷ order_in id xs

unfoldable pub get_uncompleted_chunks : Text → List ChunkRow → List ℕ
get_uncompleted_chunks tid [] = []
get_uncompleted_chunks tid (r ∷ rs) =
    let later = get_uncompleted_chunks tid rs in
    if text_eq r.transfer_id tid && not (text_eq r.state (text "COMPLETED"))
    then order_in r.chunk.chunk_id later
    else later

unfoldable pub get_completed_chunks : Text → List ChunkRow → List ℕ
get_completed_chunks tid [] = []
get_completed_chunks tid (r ∷ rs) =
    let later = get_completed_chunks tid rs in
    if is_completed tid r then order_in r.chunk.chunk_id later else later
