-- ===== src/Examples/Requests.antt =====
-- Requests that come in at the receiver of src/server/api.rs.
use share_dash.Common.{
  ℕ, ◌<◌, ◌≡◌, refl, true, false, List, [], ◌∷◌, none, some, arith, contains, length, Text, text,
  text_eq, get,
}
use share_dash.Storage.SparseWriter.{
  Disk, read, path_eq, components, segments, split_slash, push_head,
}
use share_dash.Storage.SparseWriter.Paths.{IsName}
use share_dash.Storage.Integrity.{to_ascii_lowercase}
use share_dash.Upload.Headers.{
  is_text, push_digits, to_string, parse_digits, parse, trim_start, trim_end, trim, to_lowercase,
  hex8,
}
use share_dash.Upload.Dispatcher.{TransferChunkInfo}
use share_dash.Upload.Request.{
  ChunkRequest, get_header, last_name, replace_forbidden, file_name_of, fields_of, is_intact,
}
use share_dash.Upload.Request.FileName.{IsClean, file_name_of_safe}
use share_dash.Upload.Receiver.{
  Receiver, ActiveIncomingChunkSession, new_session, stored, receive_transfer_chunk,
}
use share_dash.Upload.Receiver.Sessions.{works}
use share_dash.Upload.Receiver.Reopening.{late_duplicate_reopens, empty_file_keeps_old}
use share_dash.Upload.Sender.{Job, chunk_request, gui_chunk_request}
use share_dash.Upload.Delivery.Requests.{chunk_fields, requests_read_back}

abbrev job : Job
job = record {
  mmap = 7 ∷ 8 ∷ 9 ∷ [];
  file_name = text "a.txt";
  file_size = 3;
  transfer_id = text "t1";
}

abbrev last : TransferChunkInfo
last = record { chunk_id = 1; offset = 2; length = 1 }

abbrev crc : List ℕ → ℕ
crc bytes = length bytes

abbrev sha : List ℕ → Text
sha bytes = text "00"

abbrev req : ChunkRequest
req = chunk_request crc job 2 last

requests_read_back_example :
    let gui = gui_chunk_request crc job 2 last (text "USB") in
    (fields_of req ≡ chunk_fields job 2 last (fields_of req).is_usb)
    × (is_intact crc sha req ≡ true)
    × (fields_of gui ≡ chunk_fields job 2 last (fields_of gui).is_usb)
    × (is_intact crc sha gui ≡ true)
requests_read_back_example =
    requests_read_back crc sha job 2 last (text "USB")
      (record { id = omega arith; offset = omega arith; total = omega arith; size = omega arith })

file_name_of_safe_example :
    IsName (file_name_of (text "../../etc/pass:wd"))
    × IsClean (file_name_of (text "../../etc/pass:wd"))
file_name_of_safe_example = file_name_of_safe (text "../../etc/pass:wd")

-- The name of the example is cut and cleaned.
file_name_runs : file_name_of (text "../../etc/pass:wd") ≡ text "pass_wd"
unfolding file_name_of last_name components segments split_slash push_head text_eq replace_forbidden
    trim trim_start trim_end
file_name_runs = refl

-- The first of the two chunks is there.
abbrev half : ActiveIncomingChunkSession
half = record (new_session (fields_of req) 0) { received_chunks = 0 ∷ []; total_chunks = 2 }

abbrev waiting : Receiver
waiting = record { sessions = ((fields_of req).transfer, half) ∷ []; disk = [] }

req_intact : is_intact crc sha req ≡ true
req_intact = requests_read_back_example.1

waiting_session : get (fields_of req).transfer waiting.sessions ≡ some half
unfolding get text_eq fields_of chunk_request get_header is_text trim trim_start trim_end
waiting_session = refl

last_is_new : contains (fields_of req).id half.received_chunks ≡ false
unfolding fields_of chunk_request get_header is_text trim trim_start trim_end parse parse_digits
    to_string push_digits
last_is_new = refl

two_in_all : 1 < (fields_of req).total
unfolding fields_of chunk_request get_header is_text trim trim_start trim_end parse parse_digits
    to_string push_digits
two_in_all = omega arith

late_duplicate_reopens_example :
    let first = receive_transfer_chunk crc sha waiting req works 1 in
    let second = receive_transfer_chunk crc sha first.0 req works 2 in
    (get (fields_of req).transfer first.0.sessions ≡ none)
    × (t : ActiveIncomingChunkSession) × (get (fields_of req).transfer second.0.sessions ≡ some t)
    × (t.received_chunks ≡ (fields_of req).id ∷ [])
    × (second.1 ≡ stored (fields_of req).id 1 (fields_of req).total)
late_duplicate_reopens_example =
    late_duplicate_reopens crc sha waiting req half 1 2 req_intact waiting_session last_is_new
      (omega arith) two_in_all

-- An empty file over one of two bytes.
abbrev empty_job : Job
empty_job = record { mmap = []; file_name = text "a.txt"; file_size = 0; transfer_id = text "t2" }

abbrev empty_req : ChunkRequest
empty_req = chunk_request crc empty_job 1 (record { chunk_id = 0; offset = 0; length = 0 })

abbrev old_disk : Disk
old_disk = ((fields_of empty_req).name ∷ [], 1 ∷ 2 ∷ []) ∷ []

abbrev old_receiver : Receiver
old_receiver = record { sessions = []; disk = old_disk }

empty_intact : is_intact crc sha empty_req ≡ true
unfolding is_intact chunk_request get_header is_text trim trim_start trim_end to_lowercase hex8
    to_ascii_lowercase text_eq
empty_intact = refl

empty_fields : ((fields_of empty_req).total ≡ 1) × ((fields_of empty_req).size ≡ 0)
unfolding fields_of chunk_request get_header is_text trim trim_start trim_end parse parse_digits
    to_string push_digits
empty_fields = (refl, refl)

empty_absent : get (fields_of empty_req).transfer old_receiver.sessions ≡ none
unfolding get
empty_absent = refl

empty_body : empty_req.body ≡ []
unfolding chunk_request
empty_body = refl

old_file : read ((fields_of empty_req).name ∷ []) old_disk ≡ some (1 ∷ 2 ∷ [])
unfolding read path_eq text_eq fields_of chunk_request get_header is_text trim trim_start trim_end
    file_name_of last_name components segments split_slash push_head replace_forbidden
old_file = refl

empty_file_keeps_old_example :
    let after = receive_transfer_chunk crc sha old_receiver empty_req works 1 in
    (read ((fields_of empty_req).name ∷ []) after.0.disk ≡ some (1 ∷ 2 ∷ []))
    × (after.1 ≡ stored (fields_of empty_req).id 1 1)
empty_file_keeps_old_example =
    empty_file_keeps_old crc sha old_receiver empty_req (1 ∷ 2 ∷ []) 1 empty_intact empty_absent
      empty_fields.0 empty_fields.1 empty_body old_file
