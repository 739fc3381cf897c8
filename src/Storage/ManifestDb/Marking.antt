-- ===== src/Storage/ManifestDb/Marking.antt =====
-- src/storage/manifest_db.rs: `mark_chunk_completed` on every branch.
use share_dash.Common.{
  ℕ, ◌==◌, ◌≡◌, refl, leb, if◌then◌else◌, not, ◌&&◌, ◌||◌, List, none, some, length, Text, text, ok,
  err, contains, Bool-cases, inl, inr,
}
use share_dash.Storage.Tables.{
  TransferRow, ChunkRow, complete_rows, count_completed, find_transfer, get_uncompleted_chunks,
  get_completed_chunks,
}
use share_dash.Storage.ManifestDb.{ManifestDb, no_rows, commit, mark_chunk_completed}
use share_dash.Storage.ManifestDb.Progress.{
  has_row, length-get_completed, completed-complete_rows, uncompleted-complete_rows,
  find-set_completed, find-set_status, find-set_none,
}

-- The transfer's row after a commit.
abbrev pub progressed : TransferRow → ℕ → Text → TransferRow
progressed r n now = record r {
  completed_chunks = n;
  status = if leb r.total_chunks n then text "COMPLETED" else r.status;
  updated_at = now;
}

commit_lem :
    (tid now : Text) (before db : ManifestDb) (r : TransferRow) (n : ℕ)
    → find_transfer tid db.transfers ≡ some (record r { completed_chunks = n; updated_at = now })
    → let result =
        commit tid now before db (some (record r { completed_chunks = n; updated_at = now })) in
      (result.1 ≡ ok n)
      × (result.0.transfer_chunks ≡ db.transfer_chunks)
      × (find_transfer tid result.0.transfers ≡ some (progressed r n now))
commit_lem tid now before db r n e = elim (Bool-cases (leb r.total_chunks n)) [
  | inl full ↦
      unfold commit in
      rw (full, commit) (refl, refl, find-set_status tid (text "COMPLETED") now db.transfers _ e)
  | inr short ↦ unfold commit in rw (short, commit) (refl, refl, e)
]

module _ (db : ManifestDb) (tid : Text) (id : ℕ) (transport now : Text) where
  rows : List ChunkRow
  rows = complete_rows tid id transport now db.transfer_chunks

  marked :
      (r : TransferRow)
      → find_transfer tid db.transfers ≡ some r
      → let result = mark_chunk_completed db tid id transport now in
        let n = count_completed tid rows in
        (result.1 ≡ ok n)
        × (result.0.transfer_chunks ≡ rows)
        × (find_transfer tid result.0.transfers ≡ some (progressed r n now))
  marked r e =
      let n = count_completed tid rows in
      let found = find-set_completed tid n now db.transfers r e in
      unfold mark_chunk_completed rows in rw found (commit_lem tid now db _ r n found)

-- Marking a chunk of a known transfer returns the number of chunks that are completed then. The
-- chunk is among those if it has a row, and no longer among the uncompleted ones; all others are
-- where they were. The transfer's row shows the same number, and is completed once that has reached
-- the total.
pub mark_chunk_completed_lem :
    (db : ManifestDb) (tid : Text) (id : ℕ) (transport now : Text) (r : TransferRow)
    → find_transfer tid db.transfers ≡ some r
    → let result = mark_chunk_completed db tid id transport now in
      let after = result.0.transfer_chunks in
      let n = length (get_completed_chunks tid after) in
      (result.1 ≡ ok n)
      × ((j : ℕ)
          → contains j (get_completed_chunks tid after) ≡ (
              contains j (get_completed_chunks tid db.transfer_chunks)
              || (id == j && has_row tid j db.transfer_chunks)))
      × ((j : ℕ)
          → contains j (get_uncompleted_chunks tid after)
            ≡ (contains j (get_uncompleted_chunks tid db.transfer_chunks) && not (id == j)))
      × (find_transfer tid result.0.transfers ≡ some (progressed r n now))
mark_chunk_completed_lem db tid id transport now r e =
    let (answer, after, row) = marked db tid id transport now r e in
    rw (after, length-get_completed)
      (
        answer,
        λ j. unfold rows in completed-complete_rows tid id transport now db.transfer_chunks j,
        λ j. unfold rows in uncompleted-complete_rows tid id transport now db.transfer_chunks j,
        row,
      )

-- Marking a chunk of an unknown transfer is an error and changes nothing.
mark_chunk_completed_unknown :
    (db : ManifestDb) (tid : Text) (id : ℕ) (transport now : Text)
    → find_transfer tid db.transfers ≡ none
    → mark_chunk_completed db tid id transport now ≡ (db, err no_rows)
mark_chunk_completed_unknown db tid id transport now e =
    unfold mark_chunk_completed in
    rw (find-set_none tid _ now db.transfers e) (unfold commit in refl)
