-- ===== src/Upload/Receiver/Sessions.antt =====
-- The sessions of receive_transfer_chunk (src/server/api.rs): what a request changes, and when a
-- session is closed and opened again.
use share_dash.Common.{
  ℕ, ◌+◌, ◌≤◌, ◌≡◌, refl, ap, ◌∙◌, true, false, List, ◌∷◌, Option, none, some, Text, text_eq, arith,
  contains, length, get, get-put, get-take_out, get-take_out_same, Bool-cases, inl, inr,
}
use share_dash.Upload.Request.{ChunkRequest, Fields, fields_of, is_intact}
use share_dash.Upload.Receiver.{
  ActiveIncomingChunkSession, Receiver, Io, stored, corrupt, new_session, open_file, session_or_new,
  open_session, write_body, count_bytes, note_chunk, is_all_done, settle, store, store_if_open,
  receive_transfer_chunk,
}

-- The receiver's calls of the operating system succeed.
abbrev pub works : Io
works = record { opens = true; resizes = true; write_fails = none }

pub note_chunk-received :
    (s : ActiveIncomingChunkSession) (f : Fields) (len now : ℕ)
    → contains f.id s.received_chunks ≡ false
    → ((note_chunk s f len now).received_chunks ≡ f.id ∷ s.received_chunks)
      × ((note_chunk s f len now).total_chunks ≡ s.total_chunks)
unfolding note_chunk count_bytes
note_chunk-received s f len now h = (ground (arith, h), ground arith)

settle-other :
    (r : Receiver) (f : Fields) (s : ActiveIncomingChunkSession) (other : Text)
    → text_eq f.transfer other ≡ false
    → get other (settle r f s).0.sessions ≡ get other r.sessions
unfolding settle
settle-other r f s other h =
    ground
      (arith, get-put f.transfer other s r.sessions, get-take_out f.transfer other r.sessions, h)

store-other :
    (r : Receiver) (s : ActiveIncomingChunkSession) (f : Fields) (body : List ℕ) (fails : Option ℕ)
    (now : ℕ) (other : Text)
    → text_eq f.transfer other ≡ false
    → get other (store (r, s) f body fails now).0.sessions ≡ get other r.sessions
unfolding store write_body
store-other r s f body none now other h =
    settle-other (write_body r s f body none) f (note_chunk s f (length body) now) other h
store-other r s f body (some k) now other h = refl

opened-other :
    (r : Receiver) (o : Option ActiveIncomingChunkSession) (f : Fields) (io : Io) (body : List ℕ)
    (now : ℕ) (other : Text)
    → text_eq f.transfer other ≡ false
    → get other (store_if_open r (session_or_new o r f io now) f body io.write_fails now).0.sessions
      ≡ get other r.sessions
unfolding open_file
opened-other r (some s) f io body now other h = store-other r s f body io.write_fails now other h
opened-other r none f io body now other h = elim (Bool-cases io.opens) [
  | inr fails ↦ rw fails refl
  | inl opens ↦ rw opens (
      store-other (open_file r f io now) (new_session f now) f body io.write_fails now other h
      ∙ get-put f.transfer other (new_session f now) r.sessions
      ∙ rw h refl)
]

module _ (crc32 : List ℕ → ℕ) (sha256 : List ℕ → Text) where
  -- A request whose checksum does not fit is refused as corrupt and changes nothing, on the disk or
  -- in any session.
  pub corrupt_changes_nothing :
      (r : Receiver) (req : ChunkRequest) (io : Io) (now : ℕ)
      → is_intact crc32 sha256 req ≡ false
      → receive_transfer_chunk crc32 sha256 r req io now ≡ (r, corrupt (fields_of req).id)
  unfolding receive_transfer_chunk
  corrupt_changes_nothing r req io now bad = rw bad refl

  -- No request, whatever comes of it, touches the session of another transfer.
  pub request_isolation :
      (r : Receiver) (req : ChunkRequest) (io : Io) (now : ℕ) (other : Text)
      → text_eq (fields_of req).transfer other ≡ false
      → get other (receive_transfer_chunk crc32 sha256 r req io now).0.sessions
        ≡ get other r.sessions
  unfolding receive_transfer_chunk open_session
  request_isolation r req io now other h = elim (Bool-cases (is_intact crc32 sha256 req)) [
    | inr bad ↦ rw bad refl
    | inl good ↦
        let f = fields_of req in
        rw good (opened-other r (get f.transfer r.sessions) f io req.body now other h)
  ]

  -- In a session that lacks one chunk by its count, the next chunk that it has not had, whatever its
  -- number, closes the session, if it is intact and its write succeeds.
  pub closes_by_count :
      (r : Receiver) (req : ChunkRequest) (s : ActiveIncomingChunkSession) (now : ℕ)
      → is_intact crc32 sha256 req ≡ true
      → get (fields_of req).transfer r.sessions ≡ some s
      → contains (fields_of req).id s.received_chunks ≡ false
      → s.total_chunks ≤ length s.received_chunks + 1
      → let after = receive_transfer_chunk crc32 sha256 r req works now in
        (get (fields_of req).transfer after.0.sessions ≡ none)
        × (after.1 ≡ stored (fields_of req).id (length s.received_chunks + 1) s.total_chunks)
  unfolding receive_transfer_chunk open_session store settle
  closes_by_count r req s now good found new last =
      let f = fields_of req in
      let s' = note_chunk s f (length req.body) now in
      let (chunks, total) = note_chunk-received s f (length req.body) now new in
      let n : length s'.received_chunks ≡ length s.received_chunks + 1 =
        omega (arith, ap length chunks) in
      let done : is_all_done s' ≡ true = ground (arith, n, total, last) in
      rw (good, found, done, n, total) (get-take_out_same f.transfer _, refl)
