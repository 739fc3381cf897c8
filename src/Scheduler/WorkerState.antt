-- ===== src/Scheduler/WorkerState.antt =====
-- What the workers of src/scheduler/dynamic_scheduler.rs share, what each of them keeps, and the
-- messages of src/protocol/message.rs that they send.
use share_dash.Common.{ℕ, Bool, List, Option, Text}
use share_dash.Protocol.Frame.Codec.{Frame}
use share_dash.Storage.Manifest.{ChunkInfo}
use share_dash.Storage.SparseWriter.{SparseWriter}
use share_dash.Storage.ManifestDb.{ManifestDb}
use share_dash.Scheduler.Pool.{Pool}

-- `ChunkReqMessage` and `ChunkAckMessage` of src/protocol/message.rs.
pub record ChunkReqMessage : Type 0 where
  pub transfer_id : List ℕ
  pub file_index : ℕ
  pub chunk_id : ℕ
  pub offset : ℕ
  pub length : ℕ

pub record ChunkAckMessage : Type 0 where
  pub transfer_id : List ℕ
  pub chunk_id : ℕ
  pub verified : Bool

pub record ChunkVisualState : Type 0 where
  pub chunk_id : ℕ
  pub state : Text
  pub transport_id : Option Text

-- The events that a worker sends.
pub data TransferEvent : Type 0 where
  chunk_completed chunk_corrupt : ℕ → Text → TransferEvent
  transport_lost : Text → TransferEvent

-- What the workers share; `sent` are the frames that were handed to the transports, and the
-- newest event and frame come first.
pub record Shared : Type 0 where
  pub pool : Pool
  pub writer : Option SparseWriter
  pub db : Option ManifestDb
  pub cancel : Bool
  pub visual_map : List (ℕ × ChunkVisualState)
  pub events : List TransferEvent
  pub sent : List Frame

-- Where a worker is in its loop.
pub data Phase : Type 0 where
  idle ready stealing leaving gone : Phase
  requesting waiting written recorded corrupt giving_back : ChunkInfo → Phase
  checked : ChunkInfo → List ℕ → Phase
  completed : ChunkInfo → Bool → Phase

-- The outcomes of `recv_frame`.
pub data Received : Type 0 where
  frame : Frame → Received
  end_of_stream failed : Received
