-- ===== src/Storage/Chunker.antt =====
-- src/storage/chunker.rs: the choice of the chunk size, and the layout of a transfer's files in
-- chunks. The hash functions are parameters: `sha256` and `blake3` give the hexadecimal text that
-- `SessionCrypto` computes from bytes. A scanned file stands with the bytes that reading it gives;
-- sizes are those of the bytes, and files do not change while they are scanned.
pub mod Sizes
pub mod Tiling
pub mod Manifests
pub mod Scan
use share_dash.Common.{
  ℕ, zero, suc, ◌+◌, ◌-◌, ◌*◌, ◌/◌, ◌%◌, ◌^◌, ◌==◌, ltb, if◌then◌else◌, Bool, true, false, List, [],
  ◌∷◌, ◌++◌, Option, none, some, length, take, drop, Text, text, Result, ok, err,
}
use share_dash.Storage.Manifest.{ChunkInfo, FileMetadata, TransferManifest}

abbrev pub min_chunk_size : ℕ
min_chunk_size = 1024 * 1024

unfoldable pub calculate_chunk_size : ℕ → ℕ
calculate_chunk_size total_bytes =
    if ltb total_bytes (50 * 1024 * 1024)
    then min_chunk_size
    else if ltb total_bytes (500 * 1024 * 1024)
    then 2 * 1024 * 1024
    else if ltb total_bytes (5 * 1024 * 1024 * 1024)
    then 4 * 1024 * 1024
    else if ltb total_bytes (20 * 1024 * 1024 * 1024)
    then 8 * 1024 * 1024
    else 16 * 1024 * 1024

-- A file that `scan_path` found: its path below the root, its bytes, and its time stamp.
pub record ScannedFile : Type 0 where
  pub relative_path : Text
  pub content : List ℕ
  pub modified : ℕ

-- `min(chunk_size, file_size - offset)`.
abbrev pub to_read : ℕ → ℕ → ℕ
to_read chunk_size left = if ltb left chunk_size then left else chunk_size

-- What precedes a result that may be missing.
abbrev pub and_before {ℓ} : {A : Type ℓ} → A → Option (List A) → Option (List A)
and_before a none = none
and_before a (some l) = some (a ∷ l)

abbrev pub add_u32 : ℕ → ℕ → ℕ
add_u32 a b = (a + b) % 2 ^ 32

module _ (sha256 blake3 : List ℕ → Text) where
  -- The chunk of these bytes.
  abbrev pub describe : ℕ → ℕ → ℕ → List ℕ → ChunkInfo
  describe chunk_id file_index offset piece = record {
    chunk_id = chunk_id;
    file_index = file_index;
    offset = offset;
    length = length piece % 2 ^ 32;
    sha256 = sha256 piece;
    blake3 = blake3 piece;
  }

  -- The `while` loop over the chunks of one file, on fuel; `none` means that the fuel ran out. The
  -- last argument is `global_chunk_id`.
  unfoldable pub chunk_loop : ℕ → ℕ → ℕ → List ℕ → ℕ → ℕ → Option (List ChunkInfo)
  chunk_loop zero chunk_size file_index content offset next_id = none
  chunk_loop (suc fuel) chunk_size file_index content offset next_id =
      let n = to_read chunk_size (length content - offset) in
      let piece = take n (drop offset content) in
      let later = chunk_loop fuel chunk_size file_index content (offset + n) (add_u32 next_id 1) in
      if ltb offset (length content)
      then and_before (describe next_id file_index offset piece) later
      else some []

  -- The chunks of one file. An empty file has one chunk, of no bytes.
  unfoldable pub chunk_file : ℕ → ℕ → List ℕ → ℕ → Option (List ChunkInfo)
  chunk_file chunk_size file_index content next_id =
      if length content == 0
      then some (describe next_id file_index 0 [] ∷ [])
      else chunk_loop (suc (length content)) chunk_size file_index content 0 next_id

  unfoldable pub file_metadata : ℕ → ScannedFile → ℕ → List ChunkInfo → FileMetadata
  file_metadata file_index f start cs = record {
    file_index = file_index;
    relative_path = f.relative_path;
    size_bytes = length f.content;
    modified_timestamp = f.modified;
    is_executable = false;
    chunk_start_index = start;
    chunk_count = length cs % 2 ^ 32;
    sha256_hash = sha256 f.content;
  }

  -- One more file in front of the layout of the others.
  abbrev pub and_file :
      FileMetadata
      → List ChunkInfo
      → Option (List FileMetadata × List ChunkInfo)
      → Option (List FileMetadata × List ChunkInfo)
  and_file m cs none = none
  and_file m cs (some (ms, later)) = some (m ∷ ms, cs ++ later)

  -- The loop over the files, from the file at position `file_index` on.
  unfoldable pub layout : ℕ → ℕ → List ScannedFile → ℕ → Option (List FileMetadata × List ChunkInfo)
  layout chunk_size file_index [] next_id = some ([], [])
  layout chunk_size file_index (f ∷ fs) next_id =
      let idx = file_index % 2 ^ 32 in
      elim (chunk_file chunk_size idx f.content next_id) [
        | none ↦ none
        | some cs ↦
            and_file (file_metadata idx f next_id cs) cs
              (layout chunk_size (suc file_index) fs (add_u32 next_id (length cs)))
      ]

-- `total_bytes += meta.len()` over all files.
unfoldable pub sum_sizes : List ScannedFile → ℕ → ℕ
sum_sizes [] total = total
sum_sizes (f ∷ fs) total = sum_sizes fs ((total + length f.content) % 2 ^ 64)

abbrev pub or_size : Option ℕ → ℕ → ℕ
or_size none n = n
or_size (some m) n = m

-- The texts of the hashes, one after the other.
unfoldable pub join : List Text → List ℕ
join [] = []
join (h ∷ hs) = h ++ join hs

-- `all_chunk_hashes`.
unfoldable pub chunk_hashes : List ChunkInfo → List Text
chunk_hashes [] = []
chunk_hashes (c ∷ cs) = c.sha256 ∷ chunk_hashes cs

-- How a build can end: without files, or in a loop that reads no bytes for ever.
pub data BuildError : Type 0 where
  no_files endless : BuildError

module _ (sha256 blake3 : List ℕ → Text) (items_title : ℕ → Text) where
  unfoldable pub title_of : List ScannedFile → Text
  title_of [] = items_title 0
  title_of (f ∷ []) = f.relative_path
  title_of (f ∷ g ∷ fs) = items_title (length (f ∷ g ∷ fs))

  unfoldable pub manifest_of :
      List ℕ → List ScannedFile → ℕ → List FileMetadata → List ChunkInfo → TransferManifest
  manifest_of transfer_id scanned chunk_size files chunks = record {
    transfer_id = transfer_id;
    title = title_of scanned;
    total_bytes = sum_sizes scanned 0;
    total_files = length files % 2 ^ 32;
    chunk_size = chunk_size;
    total_chunks = length chunks % 2 ^ 32;
    root_hash = sha256 (join (chunk_hashes chunks));
    files = files;
    chunks = chunks;
  }

  -- `build_manifest` on what `scan_path` found below all the paths; `transfer_id` is the fresh
  -- identifier.
  unfoldable pub build_manifest :
      List ScannedFile → Option ℕ → List ℕ → Result BuildError TransferManifest
  build_manifest [] custom_chunk_size transfer_id = err no_files
  build_manifest (f ∷ fs) custom_chunk_size transfer_id =
      let scanned = f ∷ fs in
      let chunk_size = or_size custom_chunk_size (calculate_chunk_size (sum_sizes scanned 0)) in
      elim (layout sha256 blake3 chunk_size 0 scanned 0) [
        | none ↦ err endless
        | some (files, chunks) ↦ ok (manifest_of transfer_id scanned chunk_size files chunks)
      ]
