-- ===== src/Scheduler/Worker/Stored.antt =====
-- What reaches the disk when a worker of src/scheduler/dynamic_scheduler.rs writes a chunk.
use share_dash.Common.{
  ℕ, ◌≡◌, refl, ap, ◌∙◌, inl, inr, Bool, true, false, List, Option, none, some, length, lookup,
  Text, arith, Option-cases, Floats,
}
use share_dash.Storage.Manifest.{ChunkInfo}
use share_dash.Storage.Chunker.Tiling.{slice}
use share_dash.Storage.SparseWriter.{
  FilePath, SparseWriter, read, save, write_at, or_empty, write_chunk, write_to,
}
use share_dash.Storage.SparseWriter.Files.{read_saved, write_at-back}
use share_dash.Scheduler.Pool.{Pool}
use share_dash.Scheduler.Worker.{
  Shared, Phase, idle, ready, stealing, leaving, gone, requesting, waiting, written, recorded,
  corrupt, giving_back, checked, completed, Input, Session, begin, take, steal_one, give_back,
  send_request, request, complete, leave, acknowledge, worker_step, write_to_disk,
}
use share_dash.Scheduler.Worker.Progress.{IsGenuine}

-- The receiver has the chunk with this identifier: the file of the chunk holds, from the offset of
-- the chunk on, a payload that passes the check of the chunk's hashes.
abbrev pub IsStored : Session → Pool → ℕ → Shared → Type 0
IsStored session p id s =
    (c : ChunkInfo) × (payload : List ℕ) × (w : SparseWriter) × (path : FilePath) × (bytes : List ℕ)
    × (lookup id p.chunks ≡ some c)
    × IsGenuine session c payload
    × (s.writer ≡ some w)
    × (lookup c.file_index w.file_handles ≡ some path)
    × (read path w.disk ≡ some bytes)
    × (slice bytes c.offset (length payload) ≡ payload)

abbrev pub handles_of : Option SparseWriter → Option (List (ℕ × FilePath))
handles_of none = none
handles_of (some w) = some w.file_handles

write_to_disk-handles :
    (o : Option SparseWriter) (c : ChunkInfo) (payload : List ℕ)
    → handles_of (write_to_disk o c payload) ≡ handles_of o
unfolding write_to_disk write_chunk write_to
write_to_disk-handles none c payload = refl
write_to_disk-handles (some w) c payload =
    elim (Option-cases (lookup c.file_index w.file_handles)) [
      | inl none_ ↦ rw (none_, write_to) refl
      | inr (path, at) ↦ rw (at, write_to) refl
    ]

-- The bytes of a chunk whose file is open are on the disk after `write_to_disk`.
write_to_disk-slice :
    (w : SparseWriter) (c : ChunkInfo) (payload : List ℕ) (path : FilePath)
    → lookup c.file_index w.file_handles ≡ some path
    → (w' : SparseWriter) × (bytes : List ℕ) × (write_to_disk (some w) c payload ≡ some w')
      × (lookup c.file_index w'.file_handles ≡ some path)
      × (read path w'.disk ≡ some bytes)
      × (slice bytes c.offset (length payload) ≡ payload)
unfolding write_to_disk write_chunk write_to
write_to_disk-slice w c payload path at =
    let bytes = write_at (or_empty (read path w.disk)) c.offset payload in
    (
      record w { disk = save path bytes w.disk },
      bytes,
      rw (at, write_to) refl,
      at,
      read_saved path bytes w.disk,
      write_at-back (or_empty (read path w.disk)) c.offset payload,
    )

module _ (fl : Floats) (session : Session) (t : Text) where
  begin-handles :
      (input : Input fl) (s : Shared)
      → handles_of (begin fl session t input s).0.writer ≡ handles_of s.writer
  unfolding begin
  begin-handles input s = ground arith

  request-handles :
      (fails : Bool) (c : ChunkInfo) (o : Option (List ℕ)) (s : Shared)
      → handles_of (send_request fl session t fails c o s).0.writer ≡ handles_of s.writer
  unfolding send_request give_back
  request-handles fails c none s = refl
  request-handles true c (some payload) s = refl
  request-handles false c (some payload) s = refl

  -- No step opens or closes a file.
  pub worker_step-handles :
      (input : Input fl) (s : Shared) (ph : Phase)
      → handles_of (worker_step fl session t input s ph).0.writer ≡ handles_of s.writer
  unfolding worker_step take steal_one request complete leave give_back acknowledge
  worker_step-handles input s idle = begin-handles input s
  worker_step-handles input s (requesting c) =
      request-handles input.send_fails c _ (record s { visual_map = _ })
  worker_step-handles input s (checked c payload) = write_to_disk-handles s.writer c payload
  worker_step-handles input s ready = refl
  worker_step-handles input s stealing = refl
  worker_step-handles input s leaving = refl
  worker_step-handles input s gone = refl
  worker_step-handles input s (waiting c) = refl
  worker_step-handles input s (written c) = refl
  worker_step-handles input s (recorded c) = refl
  worker_step-handles input s (corrupt c) = refl
  worker_step-handles input s (giving_back c) = refl
  worker_step-handles input s (completed c fresh) = refl

  -- A worker that writes a chunk whose file is open stores it.
  pub checked-IsStored :
      (input : Input fl) (s : Shared) (p : Pool) (c : ChunkInfo) (payload : List ℕ)
      (handles : List (ℕ × FilePath)) (path : FilePath)
      → lookup c.chunk_id p.chunks ≡ some c
      → IsGenuine session c payload
      → handles_of s.writer ≡ some handles
      → lookup c.file_index handles ≡ some path
      → IsStored session p c.chunk_id (worker_step fl session t input s (checked c payload)).0
  unfolding worker_step
  checked-IsStored input s p c payload handles path own genuine opens at =
      let (w, path', bytes, e, open_at, readable, there) = of_writer s.writer opens in
      (c, payload, w, path', bytes, own, genuine, e, open_at, readable, there)
    where
      of_writer :
          (o : Option SparseWriter)
          → handles_of o ≡ some handles
          → (w' : SparseWriter) × (path' : FilePath) × (bytes : List ℕ) × (write_to_disk o c payload
              ≡ some w')
            × (lookup c.file_index w'.file_handles ≡ some path')
            × (read path' w'.disk ≡ some bytes)
            × (slice bytes c.offset (length payload) ≡ payload)
      of_writer none e = absurd (cc e)
      of_writer (some w) e =
          let same : w.file_handles ≡ handles = cc e in
          let (w', bytes, saved, open_at, readable, there) =
            write_to_disk-slice w c payload path (ap (lookup c.file_index) same ∙ at) in
          (w', path, bytes, saved, open_at, readable, there)
