-- ===== src/Storage/Chunker/Scan.antt =====
-- src/storage/chunker.rs: `scan_path` and `walk_directory`, on a tree of directories that does not
-- change, in the order in which the operating system lists it. A link stands as what it leads to. Names are
-- UTF-8, which `to_string_lossy` leaves as it is.
pub mod Found
use share_dash.Common.{
  ℕ, ◌==◌, if◌then◌else◌, Bool, List, [], ◌∷◌, ◌++◌, Option, none, some, map, Text, text_le, Result,
  ok, err, sort_by,
}
use share_dash.Storage.Chunker.{ScannedFile}

-- What a directory holds, one entry after the other: a file, with its bytes and its time stamp, a
-- directory, one that cannot be read, or something else, such as a socket.
pub data Entries : Type 0 where
  end : Entries
  file : Text → List ℕ → ℕ → Entries → Entries
  directory : Text → Entries → Entries → Entries
  locked : Text → Entries → Entries
  special : Text → Entries → Entries

-- `replace('\\\\', "/")`.
abbrev pub slash : ℕ → ℕ
slash c = if c == 92 then 47 else c

-- The path below the root, of a file in the directory whose path ends in a slash, or is empty.
abbrev pub relative : Text → Text → Text
relative dir name = map slash (dir ++ name)

pub data ScanError : Type 0 where
  unreadable : ScanError
  invalid_filename : ScanError
  does_not_exist : ScanError

abbrev pub subdirectory : Text → Text → Text
subdirectory dir name = dir ++ (name ++ (47 ∷ []))

abbrev pub scanned : Text → Text → List ℕ → ℕ → ScannedFile
scanned dir name content modified = record {
  relative_path = relative dir name;
  content = content;
  modified = modified;
}

-- The last argument is `files`.
unfoldable pub walk_directory :
    Text → Entries → List ScannedFile → Result ScanError (List ScannedFile)
walk_directory dir end files = ok files
walk_directory dir (file name content modified es) files =
    walk_directory dir es (files ++ (scanned dir name content modified ∷ []))
walk_directory dir (directory name below es) files =
    elim (walk_directory (subdirectory dir name) below files) [
      | err x ↦ err x
      | ok more ↦ walk_directory dir es more
    ]
walk_directory dir (locked name es) files = err unreadable
walk_directory dir (special name es) files = walk_directory dir es files

-- What stands at a path: a file, with its name if the path has one; a directory; or neither.
pub data Target : Type 0 where
  one_file : Option Text → List ℕ → ℕ → Target
  root : Entries → Target
  locked_root : Target
  nothing : Target

abbrev pub path_le : ScannedFile → ScannedFile → Bool
path_le a b = text_le a.relative_path b.relative_path

abbrev pub in_order : Result ScanError (List ScannedFile) → Result ScanError (List ScannedFile)
in_order (err x) = err x
in_order (ok files) = ok (sort_by path_le files)

-- The name of a single file is kept as it is.
unfoldable pub scan_path : Target → Result ScanError (List ScannedFile)
scan_path (one_file none content modified) = err invalid_filename
scan_path (one_file (some name) content modified) =
    in_order (ok (record { relative_path = name; content = content; modified = modified } ∷ []))
scan_path (root es) = in_order (walk_directory [] es [])
scan_path locked_root = err unreadable
scan_path nothing = err does_not_exist

-- The first loop of `build_manifest`, over the paths that are sent; `found` is
-- `all_scanned_files`.
unfoldable pub scan_all : List Target → List ScannedFile → Result ScanError (List ScannedFile)
scan_all [] found = ok found
scan_all (t ∷ ts) found = elim (scan_path t) [
  | err x ↦ err x
  | ok files ↦ scan_all ts (found ++ files)
]
