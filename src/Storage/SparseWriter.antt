-- ===== src/Storage/SparseWriter.antt =====
-- src/storage/sparse_writer.rs: the receiver's files, which are written chunk by chunk at their
-- offsets. The disk below the base directory is a map from paths to bytes, and an open file is its
-- path, so that two handles to one path are handles to one file. A path is the list of its names.
-- Calls of the operating system succeed.
pub mod Paths
pub mod Files
use share_dash.Common.{
  ℕ, zero, suc, ◌+◌, ◌-◌, ◌==◌, ◌≡◌, ltb, if◌then◌else◌, Bool, true, false, not, ◌&&◌, List, [],
  ◌∷◌, ◌++◌, Option, none, some, length, take, drop, replicate, Text, text_eq, Result, ok, err,
  lookup, insert, remove, ◌>>=◌,
}
use share_dash.Storage.Manifest.{FileMetadata}

-- `std::path::Component`.
pub data Component : Type 0 where
  prefix root_dir cur_dir parent_dir : Component
  normal : Text → Component

abbrev pub FilePath : Type 0
FilePath = List Text

pub data Error : Type 0 where
  illegal_component : Error
  empty_path : Error
  no_handle : ℕ → Error
  not_in_manifest : ℕ → Error

-- `Path::components`, on a system whose separator is the slash alone.
unfoldable pub push_head : ℕ → List Text → List Text
push_head c [] = (c ∷ []) ∷ []
push_head c (s ∷ ss) = (c ∷ s) ∷ ss

unfoldable pub split_slash : Text → List Text
split_slash [] = [] ∷ []
split_slash (c ∷ cs) =
    let later = split_slash cs in if c == b'/' then [] ∷ later else push_head c later

abbrev pub dot : Text
dot = b'.' ∷ []

abbrev pub dot_dot : Text
dot_dot = b'.' ∷ b'.' ∷ []

-- A single dot counts only at the front of a relative path; empty names do not count.
unfoldable pub segments : Bool → List Text → List Component
segments first [] = []
segments first ([] ∷ ss) = segments false ss
segments first ((c ∷ s) ∷ ss) =
    let later = segments false ss in
    if text_eq (c ∷ s) dot
    then (if first then cur_dir ∷ later else later)
    else if text_eq (c ∷ s) dot_dot
    then parent_dir ∷ later
    else normal (c ∷ s) ∷ later

unfoldable pub components : Text → List Component
components [] = []
components (c ∷ cs) =
    if c == b'/'
    then root_dir ∷ segments false (split_slash cs)
    else segments true (split_slash (c ∷ cs))

-- The loop of `sanitize_relative_path`, with the path that it has built so far.
unfoldable pub sanitize_loop : List Component → FilePath → Result Error FilePath
sanitize_loop [] clean = ok clean
sanitize_loop (normal c ∷ cs) clean = sanitize_loop cs (clean ++ (c ∷ []))
sanitize_loop (cur_dir ∷ cs) clean = sanitize_loop cs clean
sanitize_loop (prefix ∷ cs) clean = err illegal_component
sanitize_loop (root_dir ∷ cs) clean = err illegal_component
sanitize_loop (parent_dir ∷ cs) clean = err illegal_component

abbrev pub nonempty_path : FilePath → Result Error FilePath
nonempty_path [] = err empty_path
nonempty_path (n ∷ ns) = ok (n ∷ ns)

unfoldable pub sanitize_components : List Component → Result Error FilePath
sanitize_components cs = sanitize_loop cs [] >>= nonempty_path

unfoldable pub sanitize_relative_path : Text → Result Error FilePath
sanitize_relative_path rel_path = sanitize_components (components rel_path)

-- The disk.
unfoldable pub path_eq : FilePath → FilePath → Bool
path_eq [] [] = true
path_eq [] (n ∷ ns) = false
path_eq (m ∷ ms) [] = false
path_eq (m ∷ ms) (n ∷ ns) = text_eq m n && path_eq ms ns

abbrev pub Disk : Type 0
Disk = List (FilePath × List ℕ)

unfoldable pub read : FilePath → Disk → Option (List ℕ)
read p [] = none
read p ((q, f) ∷ d) = if path_eq q p then some f else read p d

unfoldable pub save : FilePath → List ℕ → Disk → Disk
save p f [] = (p, f) ∷ []
save p f ((q, g) ∷ d) = if path_eq q p then (q, f) ∷ d else (q, g) ∷ save p f d

-- The bytes of a file that is opened with `create` and without `truncate`.
abbrev pub or_empty : Option (List ℕ) → List ℕ
or_empty none = []
or_empty (some f) = f

-- `set_len`: cut, or filled up with zeros.
unfoldable pub set_len : List ℕ → ℕ → List ℕ
set_len f n = take n f ++ replicate (n - length f) 0

-- `seek` and `write_all`: a gap behind the end is filled with zeros, and no bytes write nothing.
unfoldable pub write_at : List ℕ → ℕ → List ℕ → List ℕ
write_at f offset [] = f
write_at f offset (b ∷ bs) =
    take offset f
    ++ (replicate (offset - length f) 0 ++ ((b ∷ bs) ++ drop (offset + length (b ∷ bs)) f))

pub record SparseWriter : Type 0 where
  pub files_meta : List (ℕ × FileMetadata)
  pub file_handles : List (ℕ × FilePath)
  pub disk : Disk

unfoldable pub open_file : SparseWriter → FileMetadata → FilePath → SparseWriter
open_file w m p = record w {
  file_handles = insert m.file_index p w.file_handles;
  disk = save p (set_len (or_empty (read p w.disk)) m.size_bytes) w.disk;
}

unfoldable pub preallocate_all_files :
    List (ℕ × FileMetadata) → SparseWriter → Result Error SparseWriter
preallocate_all_files [] w = ok w
preallocate_all_files ((i, m) ∷ ms) w =
    sanitize_relative_path m.relative_path >>= λ p. preallocate_all_files ms (open_file w m p)

unfoldable pub index_files : List FileMetadata → List (ℕ × FileMetadata) → List (ℕ × FileMetadata)
index_files [] table = table
index_files (m ∷ ms) table = index_files ms (insert m.file_index m table)

-- `new` on a disk that holds these files already.
unfoldable pub new : List FileMetadata → Disk → Result Error SparseWriter
new files disk =
    let table = index_files files [] in
    preallocate_all_files table (record { files_meta = table; file_handles = []; disk = disk })

unfoldable pub write_to :
    SparseWriter → Option FilePath → ℕ → ℕ → List ℕ → Result Error SparseWriter
write_to w none file_index offset bytes = err (no_handle file_index)
write_to w (some p) file_index offset bytes =
    ok (record w { disk = save p (write_at (or_empty (read p w.disk)) offset bytes) w.disk })

unfoldable pub write_chunk : SparseWriter → ℕ → ℕ → List ℕ → Result Error SparseWriter
unfolding write_to
write_chunk w file_index offset bytes =
    write_to w (lookup file_index w.file_handles) file_index offset bytes

-- `finalize_file`, which closes the handle. The time stamp that it sets is not part of the state.
unfoldable pub finalize_file : SparseWriter → ℕ → Result Error SparseWriter
finalize_file w file_index = elim (lookup file_index w.files_meta) [
  | none ↦ err (not_in_manifest file_index)
  | some m ↦ sanitize_relative_path m.relative_path >>= λ p.
      ok (record w { file_handles = remove file_index w.file_handles })
]
