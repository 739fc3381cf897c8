-- ===== src/Upload/Receiver.antt =====
-- src/server/api.rs: receive_transfer_chunk, which takes one chunk of a file in an HTTP request.
-- Requests are handled one after the other. An open file is its path below the download directory,
-- and what the operating system does with the two calls that can fail is an input. The telemetry
-- that is sent to the window is left out.
pub mod Sessions
pub mod Reopening
use share_dash.Common.{
  ℕ, ◌+◌, ◌-◌, ◌/◌, ◌%◌, ◌^◌, ltb, leb, ◌==◌, if◌then◌else◌, Bool, true, false, not, ◌&&◌, ◌||◌,
  List, [], ◌∷◌, Option, none, some, Text, text, text_eq, contains, length, take, insert, get, put,
  take_out,
}
use share_dash.Storage.Integrity.{is_empty}
use share_dash.Storage.SparseWriter.{
  Component, normal, prefix, root_dir, cur_dir, parent_dir, FilePath, Disk, components, read, save,
  set_len, write_at, or_empty,
}
use share_dash.Scheduler.Pool.{set_insert}
use share_dash.Upload.Headers.{parse, trim, to_lowercase, contains_text, hex8}
use share_dash.Upload.Request.{ChunkRequest, Fields, fields_of, is_intact}

pub record ActiveIncomingChunkSession : Type 0 where
  pub transfer_id : Text
  pub file_name : Text
  pub total_bytes : ℕ
  pub total_chunks : ℕ
  pub target_file_path : FilePath
  pub received_chunks : List ℕ
  pub start_time : ℕ
  pub last_telemetry_time : ℕ
  pub usb_bytes : ℕ
  pub wifi_bytes : ℕ
  -- Whether the badge of the chunk is the one for USB.
  pub chunk_transports : List (ℕ × Bool)

-- The sessions of ACTIVE_CHUNK_RECEIVERS, and the files in the download directory.
pub record Receiver : Type 0 where
  pub sessions : List (Text × ActiveIncomingChunkSession)
  pub disk : Disk

-- What the operating system answers: whether the file opens and can be resized, and after how many
-- bytes a write fails, if it does.
pub record Io : Type 0 where
  pub opens : Bool
  pub resizes : Bool
  pub write_fails : Option ℕ

pub data Response : Type 0 where
  -- The identifier of the chunk, how many chunks are there, and how many there are in all.
  stored : ℕ → ℕ → ℕ → Response
  -- 400 CORRUPT_CHUNK and 500.
  corrupt server_error : ℕ → Response

unfoldable pub new_session : Fields → ℕ → ActiveIncomingChunkSession
new_session f now = record {
  transfer_id = f.transfer;
  file_name = f.name;
  total_bytes = f.size;
  total_chunks = f.total;
  target_file_path = f.name ∷ [];
  received_chunks = [];
  start_time = now;
  last_telemetry_time = now;
  usb_bytes = 0;
  wifi_bytes = 0;
  chunk_transports = [];
}

-- The bytes of the file after it was opened for a new session.
abbrev pub opened_bytes : List ℕ → ℕ → Bool → List ℕ
opened_bytes old size resizes = if ltb 0 size && resizes then set_len old size else old

unfoldable pub open_file : Receiver → Fields → Io → ℕ → Receiver
open_file r f io now = record {
  sessions = put f.transfer (new_session f now) r.sessions;
  disk =
      save (f.name ∷ []) (opened_bytes (or_empty (read (f.name ∷ []) r.disk)) f.size io.resizes)
        r.disk;
}

-- The session of the transfer, which the first chunk that comes in opens.
abbrev pub session_or_new :
    Option ActiveIncomingChunkSession
    → Receiver
    → Fields
    → Io
    → ℕ
    → Option (Receiver × ActiveIncomingChunkSession)
session_or_new (some s) r f io now = some (r, s)
session_or_new none r f io now =
    if io.opens then some (open_file r f io now, new_session f now) else none

unfoldable pub open_session :
    Receiver → Fields → Io → ℕ → Option (Receiver × ActiveIncomingChunkSession)
open_session r f io now = session_or_new (get f.transfer r.sessions) r f io now

-- `write_all_at`, which the handler calls on Unix. If it fails, only the bytes before the failure are
-- written. The loop over `seek_write`, which stands there for Windows, is left out.
abbrev pub written_bytes : List ℕ → Option ℕ → List ℕ
written_bytes body none = body
written_bytes body (some k) = take k body

unfoldable pub write_body :
    Receiver → ActiveIncomingChunkSession → Fields → List ℕ → Option ℕ → Receiver
write_body r s f body fails = record r {
  disk =
      save s.target_file_path
        (write_at (or_empty (read s.target_file_path r.disk)) f.offset (written_bytes body fails))
        r.disk;
}

-- The session after the chunk was written.
unfoldable pub count_bytes : ActiveIncomingChunkSession → Fields → ℕ → ActiveIncomingChunkSession
count_bytes s f len =
    if contains f.id s.received_chunks
    then s
    else if f.is_usb
    then record s {
      received_chunks = f.id ∷ s.received_chunks;
      usb_bytes = (s.usb_bytes + len) % 2 ^ 64;
      chunk_transports = insert f.id f.is_usb s.chunk_transports;
    }
    else record s {
      received_chunks = f.id ∷ s.received_chunks;
      wifi_bytes = (s.wifi_bytes + len) % 2 ^ 64;
      chunk_transports = insert f.id f.is_usb s.chunk_transports;
    }

abbrev pub is_all_done : ActiveIncomingChunkSession → Bool
is_all_done s = leb s.total_chunks (length s.received_chunks)

-- When telemetry is sent: at the end, and 45 ms after the last time.
abbrev pub stamp : ActiveIncomingChunkSession → ℕ → ActiveIncomingChunkSession
stamp s now =
    if is_all_done s || leb 45 ((now - s.last_telemetry_time) / 1000000)
    then record s { last_telemetry_time = now }
    else s

unfoldable pub note_chunk : ActiveIncomingChunkSession → Fields → ℕ → ℕ → ActiveIncomingChunkSession
unfolding count_bytes
note_chunk s f len now = stamp (count_bytes s f len) now

-- The session is kept, or closed when all chunks are there.
unfoldable pub settle : Receiver → Fields → ActiveIncomingChunkSession → Receiver × Response
settle r f s = (
  record r {
    sessions =
        if is_all_done s then take_out f.transfer r.sessions else put f.transfer s r.sessions;
  },
  stored f.id (length s.received_chunks) s.total_chunks,
)

unfoldable pub store :
    Receiver × ActiveIncomingChunkSession → Fields → List ℕ → Option ℕ → ℕ → Receiver × Response
store (r, s) f body none now =
    settle (write_body r s f body none) f (note_chunk s f (length body) now)
store (r, s) f body (some k) now = (write_body r s f body (some k), server_error f.id)

abbrev pub store_if_open :
    Receiver
    → Option (Receiver × ActiveIncomingChunkSession)
    → Fields
    → List ℕ
    → Option ℕ
    → ℕ
    → Receiver × Response
store_if_open r none f body fails now = (r, server_error f.id)
store_if_open r (some (r', s)) f body fails now = store (r', s) f body fails now

module _ (crc32 : List ℕ → ℕ) (sha256 : List ℕ → Text) where
  unfoldable pub receive_transfer_chunk : Receiver → ChunkRequest → Io → ℕ → Receiver × Response
  receive_transfer_chunk r req io now =
      let f = fields_of req in
      if is_intact crc32 sha256 req
      then store_if_open r (open_session r f io now) f req.body io.write_fails now
      else (r, corrupt f.id)
