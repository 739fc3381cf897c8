-- ===== src/Scheduler/Worker/Writes.antt =====
-- What the workers of src/scheduler/dynamic_scheduler.rs write, and when a chunk counts as
-- completed.
use share_dash.Common.{
  ℕ, ◌==◌, ◌≡◌, ◌⊎◌, inl, inr, true, List, none, some, Text, contains, lookup, Bool-cases, Floats,
}
use share_dash.Storage.Manifest.{ChunkInfo}
use share_dash.Scheduler.Pool.Invariant.{IsWf}
use share_dash.Scheduler.Worker.{
  Shared, Phase, checked, Input, Session, complete, worker_step, write_to_disk,
}
use share_dash.Scheduler.Worker.Runs.{Run, started, steps, cancels, Run-Reach}
use share_dash.Scheduler.Worker.Progress.{
  IsCareful, IsWriting, IsBehind, worker_step-IsCareful, worker_step-IsBehind,
}
use share_dash.Scheduler.Worker.Completing.{worker_step-Completes}
use share_dash.Scheduler.Worker.{finished, await_workers}
use share_dash.Scheduler.Pool.{is_all_completed}
use share_dash.Scheduler.Pool.Redispatch.{completed_now}
use share_dash.Scheduler.Pool.Completion.{is_all_completed_iff}
use share_dash.Scheduler.Pool.Histories.{Reach-Kept}
use share_dash.Storage.Manifest.{FileMetadata}
use share_dash.Storage.SparseWriter.{FilePath, SparseWriter, write_chunk, write_to}
use share_dash.Scheduler.Worker.Soundness.{IsHeld}
use share_dash.Scheduler.Worker.Stored.{IsStored, handles_of, worker_step-handles, checked-IsStored}
use share_dash.Common.{has_key, arith, refl, ap, sym, subst, ◌∙◌}

module _ {fl : Floats} {session : Session} {name : ℕ → Text} {start : Shared} where
  -- At some moment of the run the receiver had the chunk with this identifier.
  abbrev pub WasWritten :
      ℕ → {s : Shared} {phases : ℕ → Phase} → Run fl session name start s phases → Type 0
  WasWritten id started = ⊥
  WasWritten id (cancels run) = WasWritten id run
  WasWritten id (steps {s} {phases} i input run) =
      WasWritten id run
      ⊎ IsStored session start.pool id (worker_step fl session (name i) input s (phases i)).0

  Run-IsCareful :
      {s : Shared} {phases : ℕ → Phase}
      → Run fl session name start s phases
      → (i : ℕ) → IsCareful session (phases i)
  Run-IsCareful started i = tt
  Run-IsCareful (cancels run) i = Run-IsCareful run i
  Run-IsCareful (steps {s} {phases} j input run) i = elim (Bool-cases (j == i)) [
    | inl same ↦ rw same (worker_step-IsCareful fl session (name j) input s (phases j))
    | inr other ↦ rw other (Run-IsCareful run i)
  ]

  Run-handles :
      {s : Shared} {phases : ℕ → Phase}
      → Run fl session name start s phases
      → handles_of s.writer ≡ handles_of start.writer
  Run-handles started = refl
  Run-handles (cancels run) = Run-handles run
  Run-handles (steps {s} {phases} j input run) =
      worker_step-handles fl session (name j) input s (phases j) ∙ Run-handles run

-- A receiver that begins: the pool is in order, and every chunk of it has its file open.
pub record IsOpen (start : Shared) (w : SparseWriter) : Type 0 where
  pub pool : IsWf start.pool
  pub writer : start.writer ≡ some w
  pub files :
      (id : ℕ) (c : ChunkInfo)
      → lookup id start.pool.chunks ≡ some c
      → (path : FilePath) × (lookup c.file_index w.file_handles ≡ some path)

module _ (fl : Floats) (session : Session) (name : ℕ → Text) (start : Shared) (w : SparseWriter)
    (begun : IsOpen start w) where
  -- The worker writes a chunk of the pool whose file is open.
  step-IsStored :
      {s : Shared} {phases : ℕ → Phase} (run : Run fl session name start s phases) (j : ℕ)
      (input : Input fl) (id : ℕ)
      → IsWriting session id (phases j)
      → IsStored session start.pool id (worker_step fl session (name j) input s (phases j)).0
  step-IsStored {s} {phases} run j input id (c, payload, at, same, genuine) =
      let (reach, _, held) = Run-Reach fl session name start s phases begun.pool run in
      let chunks = (Reach-Kept fl start.pool s.pool reach).chunks in
      let own : lookup c.chunk_id start.pool.chunks ≡ some c =
        ap (lookup c.chunk_id) (sym chunks) ∙ subst (IsHeld s.pool) at (held j) in
      let (path, open_) = begun.files c.chunk_id c own in
      let opens = Run-handles run ∙ ap handles_of begun.writer in
      let stored =
        checked-IsStored fl session (name j) input s start.pool c payload w.file_handles path own
          genuine opens open_ in
      subst (λ ph. IsStored session start.pool id (worker_step fl session (name j) input s ph).0)
        (sym at)
        (subst
          (λ k.
            IsStored session start.pool k
              (worker_step fl session (name j) input s (checked c payload)).0)
          same stored)

  Run-IsBehind :
      {s : Shared} {phases : ℕ → Phase} (run : Run fl session name start s phases) (i id : ℕ)
      → IsBehind id (phases i)
      → WasWritten id run
  Run-IsBehind started i id h = absurd h
  Run-IsBehind (cancels run) i id h = Run-IsBehind run i id h
  Run-IsBehind (steps {s} {phases} j input run) i id h = elim (Bool-cases (j == i)) [
    | inr other ↦ inl (Run-IsBehind run i id (rw other at h))
    | inl same ↦
        elim (worker_step-IsBehind fl session (name j) input s (phases j) id (Run-IsCareful run j)
          (rw same at h)) [
            | inl before ↦ inl (Run-IsBehind run j id before)
            | inr now ↦ inr (step-IsStored run j input id now)
          ]
  ]

  -- No chunk is completed unseen.
  completed-WasWritten :
      (s : Shared) (phases : ℕ → Phase) (run : Run fl session name start s phases) (id : ℕ)
      → contains id s.pool.completed ≡ true
      → (contains id start.pool.completed ≡ true) ⊎ WasWritten id run
  completed-WasWritten s phases started id h = inl h
  completed-WasWritten s phases (cancels {s = before} run) id h =
      completed-WasWritten before phases run id h
  completed-WasWritten s phases (steps {s = before} {phases = old} i input run) id h =
      elim (worker_step-Completes fl session (name i) input before (old i) id h) [
        | inr behind ↦ inr (inl (Run-IsBehind run i id behind))
        | inl earlier ↦ elim (completed-WasWritten before old run id earlier) [
          | inl first ↦ inl first
          | inr wrote ↦ inr (inl wrote)
        ]
      ]

finished_is_complete :
    (fl : Floats) (files : List FileMetadata) (s : Shared)
    → (await_workers files s).1 ≡ finished
    → is_all_completed s.pool ≡ true
unfolding await_workers
finished_is_complete fl files s e = ground (arith, e)

-- When `run_receiver` returns without an error, in any interleaving of the workers, then every
-- chunk of the pool that it began with was completed from the start, or at some moment of the run
-- the file of the chunk held, from the chunk's offset on, a payload that passes the check of the
-- chunk's hashes. The pool was in order, and the files of all chunks were open.
pub finished-WasWritten :
    (fl : Floats) (session : Session) (name : ℕ → Text) (start s : Shared) (w : SparseWriter)
    (phases : ℕ → Phase) (files : List FileMetadata) (run : Run fl session name start s phases)
    (id : ℕ)
    → IsOpen start w
    → (await_workers files s).1 ≡ finished
    → has_key id start.pool.chunks ≡ true
    → (contains id start.pool.completed ≡ true) ⊎ WasWritten id run
finished-WasWritten fl session name start s w phases files run id begun e known =
    let (reach, wf, _) = Run-Reach fl session name start s phases begun.pool run in
    let same = (Reach-Kept fl start.pool s.pool reach).chunks in
    let all = (is_all_completed_iff s.pool wf).0 (finished_is_complete fl files s e) in
    completed-WasWritten fl session name start w begun s phases run id (all id (rw same known))

-- If the writer has no handle for a chunk's file, the chunk is completed all the same: three steps
-- after its check, the files are as they were, and the chunk is in the completed set.
pub failed_write_completes :
    (fl : Floats) (session : Session) (t : Text) (input : Input fl) (s : Shared) (w : SparseWriter)
    (c : ChunkInfo) (payload : List ℕ)
    → s.writer ≡ some w
    → lookup c.file_index w.file_handles ≡ none
    → let a = worker_step fl session t input s (checked c payload) in
      let b = worker_step fl session t input a.0 a.1 in
      let d = worker_step fl session t input b.0 b.1 in
      (d.0.writer ≡ some w) × (contains c.chunk_id d.0.pool.completed ≡ true)
unfolding worker_step complete
failed_write_completes fl session t input s w c payload e none_ = (
  rw e (unfold write_to_disk write_chunk in rw (none_, write_to)),
  completed_now s.pool c.chunk_id,
)
