-- ===== src/Scheduler/Worker.antt =====
-- src/scheduler/dynamic_scheduler.rs: the workers of `run_receiver`, one per transport. A worker is
-- a program counter with the chunk in hand, and does one call on the shared state at a time: the
-- calls of several workers interleave at these points. What the transport, the clock and JSON give
-- to a worker is an input of its step. The telemetry that is broadcast is left out.
pub mod Soundness
pub mod Runs
pub mod Progress
pub mod Completing
pub mod Stored
pub mod Writes
pub use share_dash.Scheduler.WorkerState.{
  ChunkReqMessage, ChunkAckMessage, ChunkVisualState, TransferEvent, chunk_completed, chunk_corrupt,
  transport_lost, Shared, Phase, idle, ready, stealing, leaving, gone, requesting, waiting, written,
  recorded, corrupt, giving_back, checked, completed, Received, frame, end_of_stream, failed,
}
use share_dash.Common.{
  ℕ, ◌==◌, if◌then◌else◌, Bool, true, false, ◌&&◌, ◌||◌, List, [], ◌∷◌, Option, none, some, Text,
  text, Result, ok, err, adjust, Floats,
}
use share_dash.Protocol.Frame.Types.{FrameType, chunk_data, chunk_req, chunk_ack}
use share_dash.Protocol.Frame.Codec.{Frame, new_frame}
use share_dash.Storage.Manifest.{ChunkInfo, FileMetadata}
use share_dash.Storage.Integrity.{Mismatch, verify_chunk}
use share_dash.Storage.SparseWriter.{SparseWriter, Error, write_chunk, finalize_file}
use share_dash.Storage.ManifestDb.{ManifestDb, mark_chunk_completed}
use share_dash.Scheduler.Pool.{
  Pool, take_next_unassigned, steal_stalled_chunk, mark_completed, return_to_pool,
  return_all_from_transport, is_all_completed,
}

-- `set_visual`: an entry of the visual map, if it is there.
abbrev pub set_visual :
    ℕ → Text → Option Text → List (ℕ × ChunkVisualState) → List (ℕ × ChunkVisualState)
set_visual id state t = adjust id λ v. record v { state = state; transport_id = t }

abbrev pub set_corrupted : ℕ → List (ℕ × ChunkVisualState) → List (ℕ × ChunkVisualState)
set_corrupted id = adjust id λ v. record v { state = text "CORRUPTED" }

-- The writer after `write_chunk`, whose error is only logged.
abbrev pub or_logged : SparseWriter → Result Error SparseWriter → SparseWriter
or_logged w (ok v) = v
or_logged w (err e) = w

unfoldable pub write_to_disk : Option SparseWriter → ChunkInfo → List ℕ → Option SparseWriter
write_to_disk none c payload = none
write_to_disk (some w) c payload = some (or_logged w (write_chunk w c.file_index c.offset payload))

unfoldable pub record_in_db : Option ManifestDb → Text → ℕ → Text → Text → Option ManifestDb
record_in_db none tid id t now = none
record_in_db (some d) tid id t now = some (mark_chunk_completed d tid id t now).0

-- `verify_chunk(…).unwrap_or(false)`.
abbrev pub or_false : Result Mismatch Bool → Bool
or_false (ok b) = b
or_false (err e) = false

abbrev pub is_data : FrameType → Bool
is_data t = elim t [ chunk_data ↦ true | _ ↦ false ]

abbrev pub is_answer : Frame → ChunkInfo → Bool
is_answer f c = is_data f.header.frame_type && f.header.chunk_id == c.chunk_id

module _ (fl : Floats) where
  open fl use {F64}

  pub record Input : Type 0 where
    pub is_enabled : Bool
    pub current_mbps : F64
    pub rtt_ms : F64
    pub now : ℕ
    pub now_text : Text
    pub timed_out : Bool
    pub send_fails : Bool
    pub received : Received

-- What a worker does with a chunk that a call of the pool may have given to it.
abbrev pub with_chunk : Option ChunkInfo → Phase → Phase
with_chunk none otherwise_ = otherwise_
with_chunk (some c) otherwise_ = requesting c

-- `transfer_id`, the text of it, and how messages become bytes.
pub record Session : Type 0 where
  pub transfer_id : List ℕ
  pub transfer_text : Text
  pub crc : List ℕ → ℕ
  pub sha256 : List ℕ → Text
  pub blake3 : List ℕ → Text
  pub req_json : ChunkReqMessage → Option (List ℕ)
  pub ack_json : ChunkAckMessage → Option (List ℕ)

module _ (fl : Floats) (session : Session) (t : Text) where
  open session use {transfer_id, transfer_text, crc, sha256, blake3, req_json, ack_json}

  -- The guard of the loop.
  unfoldable pub begin : Input fl → Shared → Shared × Phase
  begin input s =
      if s.cancel || is_all_completed s.pool
      then (s, leaving)
      else if input.is_enabled
      then (s, ready)
      else (s, idle)

  unfoldable pub take : Input fl → Shared → Shared × Phase
  take input s =
      let r = take_next_unassigned fl s.pool t input.current_mbps input.rtt_ms input.now in
      (record s { pool = r.0 }, with_chunk r.1 stealing)

  unfoldable pub steal_one : Input fl → Shared → Shared × Phase
  steal_one input s =
      let r = steal_stalled_chunk fl s.pool t input.now in
      (record s { pool = r.0 }, with_chunk r.1 idle)

  -- `return_to_pool`, and where the worker goes then.
  unfoldable pub give_back : ChunkInfo → Phase → Shared → Shared × Phase
  give_back c later s = (record s { pool = return_to_pool s.pool c.chunk_id }, later)

  abbrev pub req_of : ChunkInfo → ChunkReqMessage
  req_of c = record {
    transfer_id = transfer_id;
    file_index = c.file_index;
    chunk_id = c.chunk_id;
    offset = c.offset;
    length = c.length;
  }

  unfoldable pub send_request : Bool → ChunkInfo → Option (List ℕ) → Shared → Shared × Phase
  send_request fails c none s = give_back c idle s
  send_request fails c (some payload) s = if fails then give_back c leaving s else (
    record s { sent = new_frame crc chunk_req transfer_id c.chunk_id 0 payload ∷ s.sent },
    waiting c,
  )

  unfoldable pub request : Input fl → ChunkInfo → Shared → Shared × Phase
  request input c s =
      send_request input.send_fails c (req_json (req_of c))
        (record s { visual_map = set_visual c.chunk_id (text "IN_FLIGHT") (some t) s.visual_map })

  -- A frame of another kind, or for another chunk, is passed over.
  unfoldable pub read_frame : ChunkInfo → Frame → Phase
  read_frame c f =
      if is_answer f c
      then (if or_false (verify_chunk sha256 blake3 f.payload c.sha256 c.blake3)
          then checked c f.payload
          else corrupt c)
      else waiting c

  unfoldable pub receive : ChunkInfo → Received → Phase
  receive c (frame f) = read_frame c f
  receive c end_of_stream = giving_back c
  receive c failed = giving_back c

  unfoldable pub complete : ChunkInfo → Shared → Shared × Phase
  complete c s =
      let r = mark_completed s.pool c.chunk_id in (record s { pool = r.0 }, completed c r.1)

  abbrev pub ack_frames : ChunkInfo → Option (List ℕ) → List Frame → List Frame
  ack_frames c none frames = frames
  ack_frames c (some payload) frames =
      new_frame crc chunk_ack transfer_id c.chunk_id 0 payload ∷ frames

  unfoldable pub acknowledge : ChunkInfo → Bool → Shared → Shared
  acknowledge c fresh s = record s {
    visual_map = set_visual c.chunk_id (text "COMPLETED") (some t) s.visual_map;
    events = if fresh then chunk_completed c.chunk_id t ∷ s.events else s.events;
    sent =
        ack_frames c
          (ack_json (record { transfer_id = transfer_id; chunk_id = c.chunk_id; verified = true }))
          s.sent;
  }

  unfoldable pub leave : Shared → Shared × Phase
  leave s = (
    record s {
      pool = (return_all_from_transport s.pool t).0;
      events = transport_lost t ∷ s.events;
    },
    gone,
  )

  -- One step of a worker.
  unfoldable pub worker_step : Input fl → Shared → Phase → Shared × Phase
  worker_step input s idle = begin input s
  worker_step input s ready = take input s
  worker_step input s stealing = steal_one input s
  worker_step input s (requesting c) = request input c s
  worker_step input s (waiting c) =
      (s, if input.timed_out then giving_back c else receive c input.received)
  worker_step input s (checked c payload) =
      (record s { writer = write_to_disk s.writer c payload }, written c)
  worker_step input s (written c) =
      (record s { db = record_in_db s.db transfer_text c.chunk_id t input.now_text }, recorded c)
  worker_step input s (recorded c) = complete c s
  worker_step input s (completed c fresh) = (acknowledge c fresh s, idle)
  worker_step input s (corrupt c) = give_back c (giving_back c) (record s {
    visual_map = set_corrupted c.chunk_id s.visual_map;
    events = chunk_corrupt c.chunk_id t ∷ s.events;
  })
  worker_step input s (giving_back c) = give_back c idle s
  worker_step input s leaving = leave s
  worker_step input s gone = (s, gone)

-- The end of `run_receiver`: whether it returns, and with what.
pub data Outcome : Type 0 where
  running cancelled finished : Outcome

unfoldable pub finalize_all : List FileMetadata → SparseWriter → SparseWriter
finalize_all [] w = w
finalize_all (f ∷ fs) w = finalize_all fs (or_logged w (finalize_file w f.file_index))

abbrev pub finalize_in : List FileMetadata → Option SparseWriter → Option SparseWriter
finalize_in files none = none
finalize_in files (some w) = some (finalize_all files w)

-- One round of the loop that awaits the workers.
unfoldable pub await_workers : List FileMetadata → Shared → Shared × Outcome
await_workers files s =
    if s.cancel
    then (s, cancelled)
    else if is_all_completed s.pool
    then (record s { writer = finalize_in files s.writer }, finished)
    else (s, running)
