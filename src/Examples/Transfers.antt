-- ===== src/Examples/Transfers.antt =====
-- Runs of the storage layer (src/storage) on a file of five bytes.
use share_dash.Common.{
  none, IsSorted, count_if, Bool, ℕ, ◌≡◌, ◌≢◌, refl, ◌↔◌, inl, inr, true, List, [], ◌∷◌, some,
  length, All, ok, err, lookup, Text, text, text_eq, arith,
}
use share_dash.Storage.Manifest.{ChunkInfo, TransferManifest}
use share_dash.Storage.Chunker.{ScannedFile, chunk_loop, endless, build_manifest}
use share_dash.Storage.Chunker.Tiling.{slice, Tiles}
use share_dash.Storage.Chunker.Scan.{Entries, end, file, directory, special, root, scan_path}
use share_dash.Storage.Chunker.Scan.Found.{is_readable, count_below, not_after, scan_path_lem}
use share_dash.Storage.Chunker.Manifests.{
  Describes, build_manifest-Describes, build_manifest_endless,
}
use share_dash.Storage.SparseWriter.{
  FilePath, illegal_component, components, path_eq, sanitize_relative_path, SparseWriter, read,
}
use share_dash.Storage.SparseWriter.Paths.{IsName, has_illegal, sanitize_relative_path_safe}
use share_dash.Storage.Transfer.{Among}
use share_dash.Storage.Transfer.Delivery.{deliver, IsAlone, HasHandle, deliver_complete}

-- Two stand-ins for the hash functions.
abbrev hash : List ℕ → Text
hash bytes = b'h' ∷ bytes

abbrev short_hash : List ℕ → Text
short_hash bytes = length bytes ∷ []

abbrev title_text : ℕ → Text
title_text n = n ∷ []

abbrev five : List ℕ
five = 10 ∷ 11 ∷ 12 ∷ 13 ∷ 14 ∷ []

abbrev note : ScannedFile
note = record { relative_path = text "a/note"; content = five; modified = 1700000000 }

build_manifest-Describes_example :
    (m : TransferManifest) × (build_manifest hash short_hash title_text (note ∷ []) (some 2) []
      ≡ ok m)
    × Describes hash short_hash (note ∷ []) m
build_manifest-Describes_example =
    build_manifest-Describes hash short_hash title_text note [] (some 2) []
      (inr (2, refl, omega arith, omega arith))

build_manifest_endless_example :
    (chunk_loop hash short_hash 1000 0 0 five 0 0 ≡ none)
    × (build_manifest hash short_hash title_text (note ∷ []) (some 0) [] ≡ err endless)
build_manifest_endless_example =
    build_manifest_endless hash short_hash title_text note [] [] 1000 (omega arith)

sanitize_relative_path_safe_example :
    ((p : FilePath) → sanitize_relative_path (text "a/../b") ≡ ok p → All IsName p × (p ≢ []))
    × ((sanitize_relative_path (text "a/../b") ≡ err illegal_component)
        ↔ (has_illegal (components (text "a/../b")) ≡ true))
sanitize_relative_path_safe_example = sanitize_relative_path_safe (text "a/../b")

-- The chunks of the file, cut by hand.
abbrev part : ℕ → ℕ → ℕ → ChunkInfo
part id offset n = record {
  chunk_id = id;
  file_index = 0;
  offset = offset;
  length = n;
  sha256 = hash (slice five offset n);
  blake3 = short_hash (slice five offset n);
}

abbrev parts : List ChunkInfo
parts = part 0 0 3 ∷ part 1 3 2 ∷ []

-- Out of order, and the last one twice.
abbrev arrivals : List ChunkInfo
arrivals = part 1 3 2 ∷ part 0 0 3 ∷ part 1 3 2 ∷ []

parts-Tiles : Tiles hash short_hash 3 0 five 0 0 parts
parts-Tiles = (
  record {
    chunk_id = refl;
    file_index_eq = refl;
    offset_eq = refl;
    nonempty = omega arith;
    within = omega arith;
    full = inl refl;
    sha256_eq = refl;
    blake3_eq = refl;
  },
  (
    record {
      chunk_id = refl;
      file_index_eq = refl;
      offset_eq = refl;
      nonempty = omega arith;
      within = omega arith;
      full = inr (omega arith, refl);
      sha256_eq = refl;
      blake3_eq = refl;
    },
    omega arith,
  ),
)

only_parts : All (λ c. Among c parts) arrivals
only_parts = (inr (inl refl), (inl refl, (inr (inl refl), tt)))

every_part : All (λ c. Among c arrivals) parts
every_part = (inr (inl refl), (inl refl, tt))

abbrev zeros_5 : List ℕ
zeros_5 = 0 ∷ 0 ∷ 0 ∷ 0 ∷ 0 ∷ []

abbrev note_path : FilePath
note_path = text "a" ∷ text "note" ∷ []

abbrev five_of : ℕ → List ℕ
five_of k = five

abbrev receiver : SparseWriter
receiver = record {
  files_meta = [];
  file_handles = (0, note_path) ∷ [];
  disk = (note_path, zeros_5) ∷ [];
}

alone : IsAlone five_of 0 note_path receiver
unfolding lookup
alone = (refl, λ j q h e. ground arith)

handles : All (HasHandle five_of 0 note_path receiver) arrivals
unfolding lookup
handles = ((note_path, refl), ((note_path, refl), ((note_path, refl), tt)))

on_disk : read note_path receiver.disk ≡ some zeros_5
unfolding read path_eq text_eq
on_disk = refl

deliver_complete_example :
    (w : SparseWriter) × (deliver five_of receiver arrivals ≡ ok w)
    × (read note_path w.disk ≡ some five)
deliver_complete_example =
    deliver_complete hash short_hash 3 0 five_of 0 note_path parts arrivals receiver zeros_5
      parts-Tiles only_parts every_part alone handles on_disk refl

-- Two files in a directory, one of them further down, and a socket.
abbrev tree : Entries
tree =
    file (text "b") (1 ∷ []) 7
      (directory (text "a") (file (text "c") [] 8 end) (special (text "s") end))

tree_readable : is_readable tree ≡ true
unfolding is_readable
tree_readable = refl

scan_path_lem_example :
    (found : List ScannedFile) × (scan_path (root tree) ≡ ok found)
    × IsSorted not_after found
    × ((q : ScannedFile → Bool) → count_if q found ≡ count_below q [] tree)
scan_path_lem_example = scan_path_lem tree tree_readable
