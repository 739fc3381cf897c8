-- ===== src/Examples/Workers.antt =====
-- A worker of src/scheduler/dynamic_scheduler.rs that fetches the one chunk of a transfer.
use share_dash.Common.{
  sym, ap, inl, inr, Bool-cases, ◌==◌, ℕ, zero, suc, ◌≡◌, refl, ◌⊎◌, true, false, List, [], ◌∷◌,
  none, some, arith, contains, length, lookup, insert, remove, adjust, has_key, Text, text, text_eq,
  fixed,
}
use share_dash.Protocol.Frame.Types.{chunk_data}
use share_dash.Protocol.Frame.Header.{new_header, compute_crc32, crc_input}
use share_dash.Protocol.Frame.Codec.{nil_uuid, new_frame}
use share_dash.Storage.Manifest.{ChunkInfo}
use share_dash.Storage.Integrity.{verify_chunk, eq_ignore_ascii_case, to_ascii_lowercase}
use share_dash.Storage.SparseWriter.{FilePath, SparseWriter}
use share_dash.Scheduler.Pool.{
  new, add_chunks, add_chunk, push_back, dispatch, take_from, take_next_unassigned, mark_completed,
  is_all_completed, estimate,
}
use share_dash.Scheduler.Pool.Invariant.{IsWf}
use share_dash.Scheduler.Pool.Histories.{Reach}
use share_dash.Scheduler.Pool.Construction.{new-IsWf}
use share_dash.Scheduler.Worker.{
  Shared, Phase, idle, checked, frame, Input, Session, begin, take, request, send_request, receive,
  read_frame, write_to_disk, record_in_db, complete, worker_step, await_workers, finished,
}
use share_dash.Scheduler.Worker.Soundness.{IsHeld}
use share_dash.Scheduler.Worker.Runs.{Run, started, steps, set_phase, Run-Reach}
use share_dash.Scheduler.Worker.Writes.{
  WasWritten, IsOpen, finished-WasWritten, failed_write_completes,
}

abbrev hash : List ℕ → Text
hash bytes = b'h' ∷ bytes

abbrev only_chunk : ChunkInfo
only_chunk = record {
  chunk_id = 0;
  file_index = 0;
  offset = 0;
  length = 2;
  sha256 = hash (7 ∷ 8 ∷ []);
  blake3 = [];
}

abbrev session : Session
session = record {
  transfer_id = nil_uuid;
  transfer_text = text "t";
  crc = length;
  sha256 = hash;
  blake3 = hash;
  req_json = λ m. some (m.chunk_id ∷ []);
  ack_json = λ m. none;
}

abbrev name : ℕ → Text
name i = text "lan"

-- The file of the chunk is open, and filled with zeros.
abbrev writer : SparseWriter
writer = record {
  files_meta = [];
  file_handles = (0, text "f" ∷ []) ∷ [];
  disk = (text "f" ∷ [], 0 ∷ 0 ∷ []) ∷ [];
}

abbrev start : Shared
start = record {
  pool = new (only_chunk ∷ []) [];
  writer = some writer;
  db = none;
  cancel = false;
  visual_map = [];
  events = [];
  sent = [];
}

-- At every step the transport is ready with the chunk.
abbrev input : Input fixed
input = record {
  is_enabled = true;
  current_mbps = 1000000000;
  rtt_ms = 0;
  now = 0;
  now_text = text "1";
  timed_out = false;
  send_fails = false;
  received = frame (new_frame length chunk_data nil_uuid 0 0 (7 ∷ 8 ∷ []));
}

-- What the first worker makes of the state in so many steps.
abbrev after : ℕ → Shared × (ℕ → Phase)
after zero = (start, λ i. idle)
after (suc n) =
    let before = after n in
    let r = worker_step fixed session (name 0) input before.0 (before.1 0) in
    (r.0, set_phase 0 r.1 before.1)

run_of : (n : ℕ) → Run fixed session name start (after n).0 (after n).1
run_of zero = started
run_of (suc n) = steps 0 input (run_of n)

start-IsWf : IsWf start.pool
start-IsWf = new-IsWf (only_chunk ∷ []) [] (refl, tt) (omega arith)

Run-Reach_example :
    Reach fixed start.pool (after 7).0.pool
    × IsWf (after 7).0.pool
    × ((i : ℕ) → IsHeld (after 7).0.pool ((after 7).1 i))
Run-Reach_example = Run-Reach fixed session name start (after 7).0 (after 7).1 start-IsWf (run_of 7)

all_done : (await_workers [] (after 7).0).1 ≡ finished
unfolding await_workers is_all_completed new add_chunks add_chunk push_back insert worker_step begin
    take take_next_unassigned take_from dispatch estimate lookup request send_request receive
    read_frame new_frame new_header compute_crc32 crc_input verify_chunk eq_ignore_ascii_case
    to_ascii_lowercase write_to_disk record_in_db complete mark_completed remove adjust text_eq
all_done = refl

in_table : has_key 0 start.pool.chunks ≡ true
unfolding new add_chunks add_chunk push_back insert
in_table = refl

file_open :
    (id : ℕ) (c : ChunkInfo)
    → lookup id start.pool.chunks ≡ some c
    → (path : FilePath) × (lookup c.file_index writer.file_handles ≡ some path)
unfolding new add_chunks add_chunk push_back insert lookup
file_open id c h = elim (Bool-cases (0 == id)) [
  | inl hit ↦
      let same : only_chunk ≡ c = cc (rw hit at h) in
      (text "f" ∷ [], sym (ap (λ k. lookup k.file_index writer.file_handles) same))
  | inr miss ↦ absurd (cc (rw miss at h))
]

start-IsOpen : IsOpen start writer
start-IsOpen = record { pool = start-IsWf; writer = refl; files = file_open }

finished-WasWritten_example : (contains 0 start.pool.completed ≡ true) ⊎ WasWritten 0 (run_of 7)
finished-WasWritten_example =
    finished-WasWritten fixed session name start (after 7).0 writer (after 7).1 [] (run_of 7) 0
      start-IsOpen all_done in_table

abbrev closed_writer : SparseWriter
closed_writer = record { files_meta = []; file_handles = []; disk = [] }

abbrev no_files : Shared
no_files = record start { writer = some closed_writer }

no_handle_there : lookup 0 closed_writer.file_handles ≡ none
unfolding lookup
no_handle_there = refl

failed_write_completes_example :
    let a =
      worker_step fixed session (text "lan") input no_files (checked only_chunk (7 ∷ 8 ∷ [])) in
    let b = worker_step fixed session (text "lan") input a.0 a.1 in
    let d = worker_step fixed session (text "lan") input b.0 b.1 in
    (d.0.writer ≡ some closed_writer) × (contains 0 d.0.pool.completed ≡ true)
failed_write_completes_example =
    failed_write_completes fixed session (text "lan") input no_files closed_writer only_chunk
      (7 ∷ 8 ∷ []) refl no_handle_there
