-- ===== src/Upload/Sender.antt =====
-- src/cli.rs: run_transport_chunk_worker, and src/gui/engine.rs: run_gui_chunk_worker, which send
-- the chunks of one file over one channel. The state is what the workers share: the dispatcher, the
-- stop flag and the progress of each channel. The requests' answers are inputs; the pauses between
-- the rounds are left out.
pub mod Answers
pub mod Accounting
pub mod Turns
pub mod Rounds
use share_dash.Common.{
  ℕ, ◌+◌, ◌*◌, ◌%◌, ◌^◌, ltb, leb, ◌==◌, if◌then◌else◌, Bool, true, false, not, ◌&&◌, ◌||◌, List,
  [], ◌∷◌, Option, none, some, Text, text, length, adjust, Floats,
}
use share_dash.Storage.Chunker.Tiling.{slice}
use share_dash.Upload.Headers.{to_string, hex8, contains_text}
use share_dash.Upload.Dispatcher.{
  DynamicWorkDispatcher, TransferChunkInfo, pop_chunk, mark_completed, mark_cancelled,
  return_for_retry, is_done, is_cancelled, has_fatal_error,
}
use share_dash.Upload.Request.{ChunkRequest}

-- What a worker is given: the mapped file, its name and size, and the transfer's identifier.
pub record Job : Type 0 where
  pub mmap : List ℕ
  pub file_name : Text
  pub file_size : ℕ
  pub transfer_id : Text

-- `ChannelProgress`, as far as the workers write it.
pub record Progress : Type 0 where
  pub bytes_sent : ℕ
  pub chunks_sent : ℕ

pub record Upload : Type 0 where
  pub dispatcher : DynamicWorkDispatcher
  pub stop_flag : Bool
  -- By the number of the channel.
  pub progress : List (ℕ × Progress)

module _ (crc32 : List ℕ → ℕ) where
  -- The request of the command line.
  unfoldable pub chunk_request : Job → ℕ → TransferChunkInfo → ChunkRequest
  chunk_request job total_chunks c =
      let body = slice job.mmap c.offset c.length in
      record {
        file_name = some job.file_name;
        transfer_id = some job.transfer_id;
        chunk_id = some (to_string c.chunk_id);
        chunk_offset = some (to_string c.offset);
        total_chunks = some (to_string total_chunks);
        file_size = some (to_string job.file_size);
        chunk_sha256 = none;
        chunk_crc32 = some (hex8 (crc32 body));
        transport_kind = none;
        transport = none;
        body = body;
      }

  -- The request of the desktop window, which names its transport, too.
  unfoldable pub gui_chunk_request : Job → ℕ → TransferChunkInfo → Text → ChunkRequest
  unfolding chunk_request
  gui_chunk_request job total_chunks c transport_name = record (chunk_request job total_chunks c) {
    transport_kind =
        some (if contains_text transport_name (text "USB") then text "USB" else text "WIFI");
    transport = some transport_name;
  }

-- How a round begins: the worker ends, waits, has given the chunk back, or posts it.
pub data Fetched : Type 0 where
  ends idle gave_back : Fetched
  posts : TransferChunkInfo → Fetched

-- The guards between `pop_chunk` and the request.
unfoldable pub guard_chunk : Upload → Job → Option TransferChunkInfo → Upload × Fetched
guard_chunk u job none = (u, idle)
guard_chunk u job (some c) =
    if u.stop_flag || is_cancelled u.dispatcher
    then (u, ends)
    else if ltb (length job.mmap) (c.offset + c.length)
    then (record u { dispatcher = return_for_retry u.dispatcher c.chunk_id }, gave_back)
    else (u, posts c)

-- A round of the loop, up to the request. The source locks the dispatcher for each of its calls;
-- here nothing comes between the calls of one round.
unfoldable pub fetch : Floats → Upload → Job → Text → ℕ → Upload × Fetched
fetch fl u job transport_name now =
    let popped = pop_chunk fl u.dispatcher transport_name now in
    if u.stop_flag || is_done u.dispatcher
    then (u, ends)
    else guard_chunk (record u { dispatcher = popped.0 }) job popped.1

-- What comes back from a request: a status with a body, or an error of the network.
pub data Answer : Type 0 where
  status : ℕ → Text → Answer
  network_error : Answer

abbrev pub is_success : ℕ → Bool
is_success code = leb 200 code && ltb code 300

-- 410 GONE and 409 CONFLICT.
abbrev pub is_refusal : ℕ → Bool
is_refusal code = code == 410 || code == 409

abbrev pub advance : ℕ → Progress → Progress
advance len p = record {
  bytes_sent = (p.bytes_sent + len) % 2 ^ 64;
  chunks_sent = (p.chunks_sent + 1) % 2 ^ 64;
}

-- A success: the chunk counts once, for the channel that reports it first.
unfoldable pub succeed : Upload → ℕ → TransferChunkInfo → Upload
succeed u channel c =
    let marked = mark_completed u.dispatcher c.chunk_id in
    if marked.1
    then record u { dispatcher = marked.0; progress = adjust channel (advance c.length) u.progress }
    else record u { dispatcher = marked.0 }

unfoldable pub abort : Upload → Upload
abort u = record u { stop_flag = true; dispatcher = mark_cancelled u.dispatcher }

unfoldable pub give_back : Upload → TransferChunkInfo → Upload
give_back u c = record u { dispatcher = return_for_retry u.dispatcher c.chunk_id }

-- What the command line's worker does with an answer, and whether it goes on.
unfoldable pub respond : Upload → ℕ → TransferChunkInfo → Answer → Upload × Bool
respond u channel c (status code body) =
    if is_success code
    then (succeed u channel c, true)
    else if is_refusal code
    then (abort u, false)
    else if contains_text body (text "TRANSFER_CANCELLED") || contains_text body (text "cancelled")
    then (abort u, false)
    else if u.stop_flag || is_cancelled u.dispatcher
    then (u, false)
    else (give_back u c, true)
respond u channel c network_error =
    if u.stop_flag || is_cancelled u.dispatcher then (u, false) else (give_back u c, true)

-- The same of the desktop window's worker.
unfoldable pub gui_respond : Upload → ℕ → TransferChunkInfo → Answer → Upload × Bool
gui_respond u channel c (status code body) =
    if is_success code
    then (succeed u channel c, true)
    else if is_refusal code
    then (abort u, false)
    else (give_back u c, true)
gui_respond u channel c network_error = (give_back u c, true)

-- What the command line reports when all workers have ended: that the transfer was cancelled, or
-- whether it is whole.
pub data Outcome : Type 0 where
  was_cancelled : Outcome
  integrity_ok : Bool → Outcome

unfoldable pub outcome : Upload → Outcome
outcome u =
    if u.stop_flag || is_cancelled u.dispatcher
    then was_cancelled
    else integrity_ok (not (has_fatal_error u.dispatcher))
