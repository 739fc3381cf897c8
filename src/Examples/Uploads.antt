-- ===== src/Examples/Uploads.antt =====
-- Uploads of a file of three bytes by the workers of src/cli.rs.
use share_dash.Common.{
  ℕ, ◌≤◌, ◌≡◌, refl, inl, inr, true, false, List, [], ◌∷◌, none, some, arith, length, has_key,
  lookup, insert, remove, Text, text, text_eq, fixed, get, All,
}
use share_dash.Scheduler.Pool.{push_back}
use share_dash.Storage.SparseWriter.{read}
use share_dash.Storage.Integrity.{to_ascii_lowercase}
use share_dash.Upload.Headers.{
  is_text, push_digits, to_string, parse_digits, parse, trim_start, trim_end, trim, to_lowercase,
  starts_with, contains_text, hex8,
}
use share_dash.Upload.Dispatcher.{
  TransferChunkInfo, ids, dispatcher_of, pop_from, pop_chunk, mark_completed, retry,
  return_for_retry, is_done,
}
use share_dash.Upload.Dispatcher.Layout.{Tiles}
use share_dash.Upload.Dispatcher.Histories.{Call, give_back, run, IsCall}
use share_dash.Upload.Dispatcher.Failures.{failures_of, fails_after_six}
use share_dash.Upload.Request.{get_header, fields_of, is_intact}
use share_dash.Upload.Receiver.{
  Receiver, new_session, open_file, open_session, write_body, count_bytes, note_chunk, settle,
  store, receive_transfer_chunk,
}
use share_dash.Upload.Receiver.Sessions.{works}
use share_dash.Upload.Sender.{
  Job, Progress, chunk_request, guard_chunk, fetch, status, succeed, respond, integrity_ok, outcome,
}
use share_dash.Upload.Sender.Accounting.{weigh, bytes_of, one_each, over_channels}
use share_dash.Upload.Sender.Rounds.{rounds, rounds_finish}
use share_dash.Upload.Sender.Turns.{Turns, fetches, answers, still, then_, progress_counts}
use share_dash.Upload.Delivery.Requests.{received_key, chunk_request-IsRequestFor}
use share_dash.Upload.Delivery.Writes.{target}
use share_dash.Upload.Delivery.Interleavings.{
  World, Step, Reach, begins, delivers, learns, here, next,
}
use share_dash.Upload.Delivery.Whole.{fresh, upload_is_whole}

abbrev job : Job
job = record {
  mmap = 7 ∷ 8 ∷ 9 ∷ [];
  file_name = text "a.txt";
  file_size = 3;
  transfer_id = text "t1";
}

abbrev only : TransferChunkInfo
only = record { chunk_id = 0; offset = 0; length = 3 }

abbrev one_chunk : List TransferChunkInfo
one_chunk = only ∷ []

one_chunk-Tiles : Tiles 1048576 33554432 3 0 0 one_chunk
one_chunk-Tiles = (
  record {
    chunk_id_eq = refl;
    offset_eq = refl;
    nonempty = inl (omega arith);
    at_most = omega arith;
    within = omega arith;
    at_least = inr refl;
  },
  omega arith,
)

-- Six rounds in which the chunk comes back.
abbrev six_times : List Call
six_times = give_back 0 ∷ give_back 0 ∷ give_back 0 ∷ give_back 0 ∷ give_back 0 ∷ give_back 0 ∷ []

six_known : All (IsCall 1) six_times
six_known =
    (omega arith, (omega arith, (omega arith, (omega arith, (omega arith, (omega arith, tt))))))

six_fail : (run fixed (dispatcher_of one_chunk) six_times).fatal_error ≡ true
unfolding dispatcher_of return_for_retry retry lookup insert remove push_back ids
six_fail = refl

fails_after_six_example : (id : ℕ) × (6 ≤ failures_of id six_times)
fails_after_six_example =
    fails_after_six fixed 1048576 33554432 3 one_chunk six_times one_chunk-Tiles six_known six_fail

abbrev crc : List ℕ → ℕ
crc bytes = length bytes

abbrev sha : List ℕ → Text
sha bytes = text "00"

abbrev channels : List (ℕ × Progress)
channels = (0, record { bytes_sent = 0; chunks_sent = 0 }) ∷ []

abbrev empty_receiver : Receiver
empty_receiver = record { sessions = []; disk = [] }

abbrev first_world : World
first_world = fresh one_chunk channels empty_receiver

abbrev lan : Text
lan = text "Wi-Fi"

abbrev fetched : World
fetched = record first_world { upload = (fetch fixed first_world.upload job lan 0).0 }

abbrev request_of : ℕ → World → World
request_of now w =
    let after =
      receive_transfer_chunk crc sha w.receiver (chunk_request crc job 1 only) works now in
    record w { receiver = after.0; acked = 0 ∷ w.acked }

abbrev delivered : World
delivered = request_of 5 fetched

abbrev finished_upload : World
finished_upload = record delivered { upload = (respond delivered.upload 0 only (status 200 [])).0 }

fetched-Turns : Turns fixed job one_chunk first_world.upload fetched.upload
fetched-Turns = then_ still (fetches lan 0)

has_channel : has_key 0 fetched.upload.progress ≡ true
unfolding fetch guard_chunk pop_chunk pop_from is_done dispatcher_of ids insert
has_channel = refl

both-Turns : Turns fixed job one_chunk first_world.upload finished_upload.upload
both-Turns = then_ fetched-Turns (answers 0 only (status 200 []) refl has_channel)

nothing_sent : over_channels (λ p. p.bytes_sent) first_world.upload.progress ≡ 0
unfolding over_channels
nothing_sent = refl

nothing_counted : over_channels (λ p. p.chunks_sent) first_world.upload.progress ≡ 0
unfolding over_channels
nothing_counted = refl

progress_counts_example :
    let v = finished_upload.upload in
    (over_channels (λ p. p.bytes_sent) v.progress ≡ weigh bytes_of v.dispatcher.completed one_chunk)
    × (over_channels (λ p. p.chunks_sent) v.progress
        ≡ weigh one_each v.dispatcher.completed one_chunk)
    × (over_channels (λ p. p.bytes_sent) v.progress ≤ 3)
progress_counts_example =
    progress_counts fixed job 33554432 3 one_chunk first_world.upload finished_upload.upload
      one_chunk-Tiles (omega arith) (omega arith) refl nothing_sent nothing_counted both-Turns

rounds_finish_example :
    let u =
      rounds fixed job lan 0
        (0 ∷ [])
        (record { dispatcher = dispatcher_of one_chunk; stop_flag = false; progress = channels }) in
    (is_done u.dispatcher ≡ true) × (outcome u ≡ integrity_ok true)
rounds_finish_example =
    rounds_finish fixed job lan 0 33554432 one_chunk channels (0 ∷ []) one_chunk-Tiles refl

-- What a run of the receiver looks into.
delivers_it : Step fixed crc sha job one_chunk fetched delivered
unfolding receive_transfer_chunk is_intact get_header is_text trim trim_start trim_end to_lowercase
    hex8 to_ascii_lowercase text_eq chunk_request open_session get fields_of store settle write_body
    open_file new_session note_chunk count_bytes parse parse_digits to_string push_digits
    contains_text starts_with
delivers_it =
    delivers only (chunk_request crc job 1 only) works 5 refl
      (chunk_request-IsRequestFor crc job 1 only) refl

all_steps : Reach fixed crc sha job one_chunk first_world finished_upload
all_steps =
    next (next (next here (begins lan 0)) delivers_it)
      (learns 0 only (status 200 []) refl (λ h. refl))

no_session : get (received_key job) empty_receiver.sessions ≡ none
unfolding get
no_session = refl

all_done : is_done finished_upload.upload.dispatcher ≡ true
unfolding fetch guard_chunk pop_chunk pop_from is_done dispatcher_of ids insert respond succeed
    mark_completed
all_done = refl

reported_whole : outcome finished_upload.upload ≡ integrity_ok true
unfolding fetch guard_chunk pop_chunk pop_from is_done dispatcher_of ids insert respond succeed
    mark_completed outcome
reported_whole = refl

upload_is_whole_example : read (target job) finished_upload.receiver.disk ≡ some (7 ∷ 8 ∷ 9 ∷ [])
upload_is_whole_example =
    upload_is_whole fixed crc sha job one_chunk 33554432 channels empty_receiver finished_upload
      one_chunk-Tiles refl (omega arith) (omega arith) no_session all_steps all_done reported_whole
