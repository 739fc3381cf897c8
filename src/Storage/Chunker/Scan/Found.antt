-- ===== src/Storage/Chunker/Scan/Found.antt =====
-- Which files a scan finds (src/storage/chunker.rs).
use share_dash.Common.{
  ℕ, ◌+◌, ◌≡◌, refl, if◌then◌else◌, Bool, true, false, ◌&&◌, List, [], ◌∷◌, ◌++◌, sort_by, Text,
  text_le, text_le_total, ok, err, arith, IsSorted, count_if, count-append, count-sort_by,
  sort_by-IsSorted, Bool-cases, inl, inr,
}
use share_dash.Storage.Chunker.{ScannedFile}
use share_dash.Storage.Chunker.Scan.{
  Entries, file, directory, locked, special, end, subdirectory, scanned, walk_directory, path_le,
  root, scan_path, unreadable,
}

-- Every directory below can be read.
unfoldable pub is_readable : Entries → Bool
is_readable end = true
is_readable (file name content modified es) = is_readable es
is_readable (directory name below es) = is_readable below && is_readable es
is_readable (locked name es) = false
is_readable (special name es) = is_readable es

-- How many files of a kind there are below a directory.
unfoldable pub count_below : (ScannedFile → Bool) → Text → Entries → ℕ
count_below q dir end = 0
count_below q dir (file name content modified es) =
    (if q (scanned dir name content modified) then 1 else 0) + count_below q dir es
count_below q dir (directory name below es) =
    count_below q (subdirectory dir name) below + count_below q dir es
count_below q dir (locked name es) = count_below q dir es
count_below q dir (special name es) = count_below q dir es

-- The files that a walk has found: those from before, and all those below.
walk_directory_lem :
    (dir : Text) (es : Entries) (files : List ScannedFile)
    → is_readable es ≡ true
    → (found : List ScannedFile) × (walk_directory dir es files ≡ ok found)
      × ((q : ScannedFile → Bool) → count_if q found ≡ count_if q files + count_below q dir es)
unfolding walk_directory is_readable count_below
walk_directory_lem dir end files h = (files, refl, λ q. ground arith)
walk_directory_lem dir (file name content modified es) files h =
    let one = scanned dir name content modified ∷ [] in
    let (found, walked, counted) = walk_directory_lem dir es (files ++ one) h in
    (found, walked, λ q. ground (arith, counted q, count-append q files one))
walk_directory_lem dir (directory name below es) files h =
    let (more, into, first) =
      walk_directory_lem (subdirectory dir name) below files (ground arith) in
    let (found, walked, counted) = walk_directory_lem dir es more (ground arith) in
    (found, rw into walked, λ q. ground (arith, first q, counted q))
walk_directory_lem dir (locked name es) files h = cc
walk_directory_lem dir (special name es) files h = walk_directory_lem dir es files h

walk_directory_unreadable :
    (dir : Text) (es : Entries) (files : List ScannedFile)
    → is_readable es ≡ false
    → walk_directory dir es files ≡ err unreadable
unfolding walk_directory is_readable
walk_directory_unreadable dir end files h = cc
walk_directory_unreadable dir (file name content modified es) files h =
    walk_directory_unreadable dir es (files ++ (scanned dir name content modified ∷ [])) h
walk_directory_unreadable dir (directory name below es) files h =
    elim (Bool-cases (is_readable below)) [
      | inl open_ ↦
          (let (more, into, first) = walk_directory_lem (subdirectory dir name) below files open_ in
            rw into (walk_directory_unreadable dir es more (ground arith)))
      | inr shut ↦ rw (walk_directory_unreadable (subdirectory dir name) below files shut) refl
    ]
walk_directory_unreadable dir (locked name es) files h = refl
walk_directory_unreadable dir (special name es) files h = walk_directory_unreadable dir es files h

-- The order of the paths, as bytes.
abbrev pub not_after : ScannedFile → ScannedFile → Bool
not_after a b = text_le a.relative_path b.relative_path

-- The scan of a directory whose subdirectories can all be read succeeds. It finds each file that
-- is below the directory as often as it is there, in any depth, and nothing else, in the order of
-- the paths from the root.
pub scan_path_lem :
    (es : Entries)
    → is_readable es ≡ true
    → (found : List ScannedFile) × (scan_path (root es) ≡ ok found)
      × IsSorted not_after found
      × ((q : ScannedFile → Bool) → count_if q found ≡ count_below q [] es)
unfolding scan_path
scan_path_lem es h =
    let (walked_files, walked, counted) = walk_directory_lem [] es [] h in
    (
      sort_by path_le walked_files,
      rw walked refl,
      sort_by-IsSorted not_after (λ a b. text_le_total a.relative_path b.relative_path)
          walked_files,
      λ q. ground (arith, counted q, count-sort_by path_le q walked_files),
    )

-- With a subdirectory that cannot be read the scan is an error.
scan_path_unreadable :
    (es : Entries) → is_readable es ≡ false → scan_path (root es) ≡ err unreadable
unfolding scan_path
scan_path_unreadable es h = rw (walk_directory_unreadable [] es [] h) refl
