-- ===== src/Examples/Databases.antt =====
-- Runs of the database of transfers (src/storage/manifest_db.rs).
use share_dash.Common.{
  IsSorted, count_if, map, if◌then◌else◌, ◌+◌, Bool, ℕ, ◌==◌, ◌≡◌, refl, true, false, not, ◌&&◌,
  ◌||◌, List, [], ◌∷◌, some, length, contains, ok, Text, text, text_eq,
}
use share_dash.Storage.Manifest.{ChunkInfo, TransferManifest}
use share_dash.Storage.Tables.{
  without_transfer, TransferRow, ChunkRow, new_chunk_row, find_transfer, get_completed_chunks,
  get_uncompleted_chunks,
}
use share_dash.Storage.ManifestDb.{
  ManifestDb, TransferRecord, record_of, list_transfers, all_fit, save_transfer,
  mark_chunk_completed,
}
use share_dash.Storage.ManifestDb.Listing.{not_older, saved_record, list_transfers-save_transfer}
use share_dash.Storage.ManifestDb.Progress.{has_row}
use share_dash.Storage.ManifestDb.Marking.{progressed, mark_chunk_completed_lem}

-- The chunks of a file of five bytes, whose hashes do not matter here.
abbrev part : ℕ → ℕ → ℕ → ChunkInfo
part id offset n = record {
  chunk_id = id;
  file_index = 0;
  offset = offset;
  length = n;
  sha256 = [];
  blake3 = [];
}

abbrev row : TransferRow
row = record {
  transfer_id = text "t";
  title = text "note";
  is_outgoing = false;
  total_bytes = 5;
  total_files = 1;
  total_chunks = 2;
  chunk_size = 3;
  completed_chunks = 0;
  root_hash = [];
  destination_path = text "in";
  status = text "ACTIVE";
  created_at = text "1";
  updated_at = text "1";
}

abbrev chunk_rows : List ChunkRow
chunk_rows =
    new_chunk_row (text "t") (text "PENDING") (part 0 0 3)
    ∷ new_chunk_row (text "t") (text "PENDING") (part 1 3 2)
    ∷ []

abbrev db : ManifestDb
db = record {
  foreign_keys = true;
  transfers = row ∷ [];
  transfer_files = [];
  transfer_chunks = chunk_rows;
}

row_found : find_transfer (text "t") db.transfers ≡ some row
unfolding find_transfer text_eq
row_found = refl

mark_chunk_completed_lem_example :
    let result = mark_chunk_completed db (text "t") 1 (text "lan") (text "2") in
    let after = result.0.transfer_chunks in
    let n = length (get_completed_chunks (text "t") after) in
    (result.1 ≡ ok n)
    × ((j : ℕ)
        → contains j (get_completed_chunks (text "t") after) ≡ (
            contains j (get_completed_chunks (text "t") db.transfer_chunks)
            || (1 == j && has_row (text "t") j db.transfer_chunks)))
    × ((j : ℕ)
        → contains j (get_uncompleted_chunks (text "t") after)
          ≡ (contains j (get_uncompleted_chunks (text "t") db.transfer_chunks) && not (1 == j)))
    × (find_transfer (text "t") result.0.transfers ≡ some (progressed row n (text "2")))
mark_chunk_completed_lem_example =
    mark_chunk_completed_lem db (text "t") 1 (text "lan") (text "2") row row_found

-- A second transfer, with ids as their own text.
abbrev second : TransferManifest
second = record {
  transfer_id = text "u";
  title = text "second";
  total_bytes = 5;
  total_files = 1;
  chunk_size = 3;
  total_chunks = 2;
  root_hash = [];
  files = [];
  chunks = part 0 0 3 ∷ part 1 3 2 ∷ [];
}

abbrev by_id : Text → TransferRecord → Bool
by_id id r = text_eq r.transfer_id id

list_transfers-save_transfer_example :
    let listed =
      list_transfers (λ id. some id) (save_transfer (λ id. id) db second true [] (text "3")).0 in
    IsSorted not_older listed
    × (count_if (by_id (text "u")) listed ≡ (
        if all_fit second
        then (if by_id (text "u") (saved_record second true [] (text "3")) then 1 else 0)
          + count_if
              (by_id (text "u"))
              (map (record_of (λ id. some id)) (without_transfer (text "u") db.transfers))
        else count_if (by_id (text "u")) (map (record_of (λ id. some id)) db.transfers)))
list_transfers-save_transfer_example =
    list_transfers-save_transfer (λ id. some id) (λ id. id) db second true [] (text "3")
      (by_id (text "u")) refl
