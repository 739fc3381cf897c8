-- ===== src/Upload/Delivery/Requests.antt =====
-- What the receiver (src/server/api.rs) reads out of the request that a worker of src/cli.rs or
-- src/gui/engine.rs has written.
use share_dash.Common.{
  ℕ, ◌^◌, ◌<◌, ◌≡◌, refl, ap, ◌∙◌, if◌then◌else◌, Bool, true, false, List, [], some, Text,
  text_eq_refl,
}
use share_dash.Storage.Chunker.Tiling.{slice}
use share_dash.Storage.Integrity.{is_empty}
use share_dash.Upload.Headers.{
  to_string, hex8, to_lowercase, parse, parse-to_string, to_string-IsPlain, hex8-IsPlain, trim,
  is_text_plain, trim_plain, to_lowercase_plain,
}
use share_dash.Upload.Dispatcher.{TransferChunkInfo}
use share_dash.Upload.Request.{
  ChunkRequest, Fields, get_header, file_name_of, or_name, or_value, fields_of, is_intact,
}
use share_dash.Upload.Sender.{Job, chunk_request, gui_chunk_request}

printed :
    (limit n otherwise : ℕ)
    → n < limit
    → or_value (parse limit (get_header (some (to_string n)))) otherwise ≡ n
unfolding get_header
printed limit n otherwise h =
    let plain = to_string-IsPlain n in
    rw
      (is_text_plain (to_string n) plain, trim_plain (to_string n) plain, parse-to_string limit n h)
      refl

-- The file's name and the transfer's key on the receiver.
abbrev pub received_name : Job → Text
received_name job = file_name_of (get_header (some job.file_name))

abbrev pub received_key : Job → Text
received_key job = or_name (get_header (some job.transfer_id)) (received_name job)

-- The fields that a request about a chunk stands for.
abbrev pub chunk_fields : Job → ℕ → TransferChunkInfo → Bool → Fields
chunk_fields job total_chunks c is_usb = record {
  name = received_name job;
  transfer = received_key job;
  id = c.chunk_id;
  offset = c.offset;
  total = total_chunks;
  size = job.file_size;
  is_usb = is_usb;
}

-- All numbers fit their machine words.
pub record Fits (job : Job) (total_chunks : ℕ) (c : TransferChunkInfo) : Type 0 where
  pub id : c.chunk_id < 2 ^ 32
  pub offset : c.offset < 2 ^ 64
  pub total : total_chunks < 2 ^ 32
  pub size : job.file_size < 2 ^ 64

-- What the requests of both kinds of worker have in common.
pub record IsRequestFor (crc32 : List ℕ → ℕ) (job : Job) (total_chunks : ℕ) (c : TransferChunkInfo)
    (req : ChunkRequest) : Type 0 where
  pub file_name : req.file_name ≡ some job.file_name
  pub transfer_id : req.transfer_id ≡ some job.transfer_id
  pub chunk_id : req.chunk_id ≡ some (to_string c.chunk_id)
  pub chunk_offset : req.chunk_offset ≡ some (to_string c.offset)
  pub total_chunks_eq : req.total_chunks ≡ some (to_string total_chunks)
  pub file_size : req.file_size ≡ some (to_string job.file_size)
  pub checksum : req.chunk_crc32 ≡ some (hex8 (crc32 req.body))
  pub body : req.body ≡ slice job.mmap c.offset c.length

pub chunk_request-IsRequestFor :
    (crc32 : List ℕ → ℕ) (job : Job) (total_chunks : ℕ) (c : TransferChunkInfo)
    → IsRequestFor crc32 job total_chunks c (chunk_request crc32 job total_chunks c)
unfolding chunk_request
chunk_request-IsRequestFor crc32 job total_chunks c = record {
  file_name = refl;
  transfer_id = refl;
  chunk_id = refl;
  chunk_offset = refl;
  total_chunks_eq = refl;
  file_size = refl;
  checksum = refl;
  body = refl;
}

gui_chunk_request-IsRequestFor :
    (crc32 : List ℕ → ℕ) (job : Job) (total_chunks : ℕ) (c : TransferChunkInfo) (name : Text)
    → IsRequestFor crc32 job total_chunks c (gui_chunk_request crc32 job total_chunks c name)
unfolding gui_chunk_request chunk_request
gui_chunk_request-IsRequestFor crc32 job total_chunks c name = record {
  file_name = refl;
  transfer_id = refl;
  chunk_id = refl;
  chunk_offset = refl;
  total_chunks_eq = refl;
  file_size = refl;
  checksum = refl;
  body = refl;
}

module _ (crc32 : List ℕ → ℕ) (sha256 : List ℕ → Text) (job : Job) (total_chunks : ℕ)
    (c : TransferChunkInfo) (req : ChunkRequest)
    (asks : IsRequestFor crc32 job total_chunks c req) where
  pub request_intact : is_intact crc32 sha256 req ≡ true
  unfolding is_intact
  request_intact =
      let checksum = hex8 (crc32 req.body) in
      let plain = hex8-IsPlain (crc32 req.body) in
      let read_back : to_lowercase (get_header (some checksum)) ≡ checksum =
        unfold get_header in
        ap (λ b. to_lowercase (if b then trim checksum else [])) (is_text_plain checksum plain)
        ∙ ap to_lowercase (trim_plain checksum plain)
        ∙ to_lowercase_plain checksum plain in
      let given : is_empty checksum ≡ false = unfold hex8 in refl in
      rw (asks.checksum, read_back, given, text_eq_refl checksum) refl

  pub request_fields :
      Fits job total_chunks c
      → fields_of req ≡ chunk_fields job total_chunks c (fields_of req).is_usb
  unfolding fields_of
  request_fields fits =
      rw
        (
          asks.file_name,
          asks.transfer_id,
          asks.chunk_id,
          asks.chunk_offset,
          asks.total_chunks_eq,
          asks.file_size,
          printed (2 ^ 32) c.chunk_id 0 fits.id,
          printed (2 ^ 64) c.offset 0 fits.offset,
          printed (2 ^ 32) total_chunks 1 fits.total,
          printed (2 ^ 64) job.file_size 0 fits.size,
        )
        refl

-- The receiver reads back every number that the worker has written, takes the transfer for the same
-- one each time, and finds the bytes of the chunk intact, whichever of the two programs sends them
-- and whatever the checksum functions are.
pub requests_read_back :
    (crc32 : List ℕ → ℕ) (sha256 : List ℕ → Text) (job : Job) (total_chunks : ℕ)
    (c : TransferChunkInfo) (transport_name : Text)
    → Fits job total_chunks c
    → let plain = chunk_request crc32 job total_chunks c in
      let gui = gui_chunk_request crc32 job total_chunks c transport_name in
      (fields_of plain ≡ chunk_fields job total_chunks c (fields_of plain).is_usb)
      × (is_intact crc32 sha256 plain ≡ true)
      × (fields_of gui ≡ chunk_fields job total_chunks c (fields_of gui).is_usb)
      × (is_intact crc32 sha256 gui ≡ true)
requests_read_back crc32 sha256 job total_chunks c transport_name fits =
    let cli = chunk_request-IsRequestFor crc32 job total_chunks c in
    let gui = gui_chunk_request-IsRequestFor crc32 job total_chunks c transport_name in
    (
      request_fields crc32 sha256 job total_chunks c _ cli fits,
      request_intact crc32 sha256 job total_chunks c _ cli,
      request_fields crc32 sha256 job total_chunks c _ gui fits,
      request_intact crc32 sha256 job total_chunks c _ gui,
    )
